-- ===== src/Tests/Pipe.antt =====
-- The theorem on `sysinfo_get_uname_a` with a pipe that gives a fixed text.
use deadline_knapp_verparsed.Base.{
  ℕ, zero, suc, ◌≤◌, [], ◌∷◌, some, Bytes, codes, length, take, arith,
}
use deadline_knapp_verparsed.Sysinfo.{Pipes, sysinfo_get_uname_a}
use deadline_knapp_verparsed.Sysinfo.Buffer.{Fills, sysinfo_get_uname_a-Fills}
use deadline_knapp_verparsed.Tests.{quiet_world}

abbrev system_name : Pipes
system_name = record {
  Pipe = Bytes;
  popen = λ cmd type. some (codes "Linux");
  fread = take;
  pclose = λ p. some 0;
}

take-short : (n : ℕ) (t : Bytes) → length (take n t) ≤ n
take-short zero t = omega arith
take-short (suc n) [] = omega arith
take-short (suc n) (c ∷ t) = omega (arith, take-short n t)

-- Four bytes of an array of five: three letters and a NUL.
sysinfo_get_uname_a-Fills_example :
    Fills system_name
      (some (codes "Linux"))
      (codes "?????")
      4
      quiet_world
      (sysinfo_get_uname_a system_name (codes "?????") 4 quiet_world)
sysinfo_get_uname_a-Fills_example =
    sysinfo_get_uname_a-Fills system_name (codes "?????") 4 quiet_world take-short (omega arith)
      (omega arith)
