-- ===== src/Jwt/Separation.antt =====
-- Access and refresh tokens do not stand in for each other.
use testmellow.World.Exec.{World}
