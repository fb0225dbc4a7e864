-- ===== src/Server/KillSwitch.antt =====
-- What becomes of the children when the parent ends.
use cftp_server.Base.{ℕ, Option, none, some, List, []}
use cftp_server.Server.Family.{Child, Family}

-- Which children are left by the pipes: all while the parent runs, and then none.
abbrev pub left_by_pipes : Option (List ℕ) → List Child → List Child
left_by_pipes none cs = []
left_by_pipes (some ws) cs = cs
