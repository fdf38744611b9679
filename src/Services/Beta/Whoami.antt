-- ===== src/Services/Beta/Whoami.antt =====
-- What /whoami of kris-beta answers, through the chain of its listener.
use go_infrastructure.Middleware.Handler.{Middleware}
use go_infrastructure.Middleware.World.{World}
use go_infrastructure.Middleware.Auth
use go_infrastructure.Middleware.Cors
use go_infrastructure.Server.Chain.{Kratos}
