-- ===== src/Data/Redis/Closed.antt =====
-- What `NewRedis` leaves behind where it returns an error.
use go_infrastructure.Prelude.{
  ◌≡◌, ◌≢◌, ◌⊎◌, inl, inr, refl, sym, ap, ◌∙◌, Bool-cases, Option, none, some, GoString, is_empty,
  true,
}
use go_infrastructure.Client.Dial.{opened, not_opened}
use go_infrastructure.Data.{Pools}
use go_infrastructure.Data.Redis.{
  RedisConfig, RedisOptions, redis_options, new_redis, redis_pinged, redis_registered,
}

module _ {Conn W : Type 0} (new_client : RedisOptions → W → Conn × W) (pools : Pools Conn W) where
  opened-not_opened : (c : Conn) (err : GoString) → opened c ≢ not_opened err
  opened-not_opened c err e = cc

  redis_registered_opened :
      (c : Conn) (r : Option GoString × W) → (redis_registered new_client pools c r).0 ≡ opened c
  unfolding redis_registered
  redis_registered_opened c (none, w) = refl
  redis_registered_opened c (some err, w) = refl

  redis_pinged-close :
      (name : GoString) (c : Conn) (r : Option GoString × W) (err : GoString) (w' : W)
      → redis_pinged new_client pools name c r ≡ (not_opened err, w')
      → (w2 : W) × (w' ≡ (pools.close c w2).1)
  unfolding redis_pinged
  redis_pinged-close name c (some e, w) err w' h = (w, ap (λ x. x.1) (sym h))
  redis_pinged-close name c (none, w) err w' h =
      absurd (opened-not_opened c err (sym (redis_registered_opened c _) ∙ ap (λ x. x.0) h))

  -- Where `NewRedis` returns an error, the address is empty and it has done nothing, or the client that it made has been closed
  -- as the last step: no error leaves a client open.
  pub new_redis-close :
      (cfg : RedisConfig) (w w' : W) (err : GoString)
      → new_redis new_client pools cfg w ≡ (not_opened err, w')
      → ((is_empty cfg.addr ≡ true) × (w' ≡ w))
        ⊎ ((w2 : W) × (w' ≡ (pools.close (new_client (redis_options cfg) w).0 w2).1))
  unfolding new_redis
  new_redis-close cfg w w' err h = elim (Bool-cases (is_empty cfg.addr)) [
    | inl e ↦ inl (e, ap (λ x. x.1) (sym (rw e at h)))
    | inr f ↦ inr (redis_pinged-close cfg.name _ _ err w' (rw f at h))
  ]
