-- ===== src/Data/Redis/Tests.antt =====
-- `NewRedis` at a server that answers no ping.
use go_infrastructure.Prelude.{
  ℕ, suc, ◌-◌, ◌≡◌, ◌⊎◌, refl, Bool, true, false, none, some, pos, codes,
}
use go_infrastructure.Client.Dial.{not_opened}
use go_infrastructure.Data.{Pools}
use go_infrastructure.Data.Redis.{RedisConfig, RedisOptions, redis_options, new_redis, redis_pinged}
use go_infrastructure.Data.Redis.Closed.{new_redis-close}

-- The world counts the open connections; no ping is answered.
abbrev dead : Pools ℕ ℕ
dead = record {
  ping = λ d c w. (some (codes "timeout"), w);
  close = λ c w. (none, w - 1);
  register = λ c name w. (none, w);
  unregister = λ c name w. w;
  info = λ m w. w;
  warn = λ m w. w;
  error = λ m w. w;
}

abbrev new_client : RedisOptions → ℕ → ℕ × ℕ
new_client o w = (7, suc w)

abbrev config : RedisConfig
config = record {
  name = codes "main";
  addr = codes "localhost:6379";
  username = codes "";
  password = codes "";
  db = pos 0;
  dial_timeout = pos 0;
  read_timeout = pos 0;
  write_timeout = pos 0;
  ping_timeout = pos 0;
}

new_redis_run : new_redis new_client dead config 4 ≡ (not_opened (codes "redis: ping: timeout"), 4)
unfolding new_redis redis_pinged redis_options
new_redis_run = refl

new_redis-close_run :
    ((◌≡◌ {A = Bool} false true) × (◌≡◌ {A = ℕ} 4 4))
    ⊎ ((w2 : ℕ) × (4 ≡ (dead.close (new_client (redis_options config) 4).0 w2).1))
new_redis-close_run =
    new_redis-close new_client dead config 4 4 (codes "redis: ping: timeout") new_redis_run
