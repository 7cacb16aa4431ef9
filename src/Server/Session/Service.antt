-- ===== src/Server/Session/Service.antt =====
-- The requests that are always answered.
use progetto_sol_unipi.Memory.Files.{Host}
use progetto_sol_unipi.Server.Worker.{Job}
use progetto_sol_unipi.Server.Worker.Request.{Request}
use progetto_sol_unipi.Server.Session.{Session}

-- The job of the session, with what its client has sent behind it.
abbrev pub requested : Host → Job → Session → Request
requested host job s = record { host = host; job = job; packets = s.world.incoming }
