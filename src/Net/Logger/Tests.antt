-- ===== src/Net/Logger/Tests.antt =====
-- Calls of net/log.cc on concrete loggers.
use jnet.Base.{ℕ, ◌≤◌, ◌≡◌, refl, true, some, List, [], ◌∷◌, ◌++◌, arith, length, take}
use jnet.Base.Int.{negsuc}
use jnet.Net.Http.Text.{bytes_of}
use jnet.Net.Logger.{
  Logger, Zone, new, line, period, set_log_level, adjust_log_level, set_file_name, write, writes,
  reports, complains,
}
use jnet.Net.Logger.Line.{AllNewlines, EndsInLine, line_lem}
use jnet.Net.Logger.Rotation.{Call, rotations, Rise, rotations-Rise}

line_lem_example :
    (text : List ℕ) × (nl : List ℕ) × (line (49 ∷ []) (65 ∷ 10 ∷ 10 ∷ [])
      ≡ (49 ∷ []) ++ 32 ∷ (text ++ 10 ∷ []))
    × (take 4092 (65 ∷ 10 ∷ 10 ∷ []) ≡ text ++ nl)
    × AllNewlines nl
    × EndsInLine text
    × (length (line (49 ∷ []) (65 ∷ 10 ∷ 10 ∷ [])) ≤ 4095)
line_lem_example = line_lem (49 ∷ []) (65 ∷ 10 ∷ 10 ∷ []) (omega arith)

abbrev zone : Zone
zone = record { east = 3600; west = 0 }

abbrev daily : Logger
daily = (set_file_name (76 ∷ []) (some 5) (new 90000)).0

abbrev call : ℕ → Call
call now = record { now = now; stamp = 46 ∷ []; renamed = true; opened = some 6 }

abbrev calls : List Call
calls = call 90001 ∷ call 200000 ∷ call 200001 ∷ call 400000 ∷ []

rotations-daily : rotations zone calls daily ≡ 2 ∷ 4 ∷ []
unfolding rotations set_file_name new
rotations-daily = refl

rotations-Rise_example :
    Rise (period zone daily.rotate_interval daily.last_rotate) (rotations zone calls daily)
unfolding set_file_name new
rotations-Rise_example =
    rotations-Rise zone calls daily refl
      (omega arith, (omega arith, (omega arith, (omega arith, tt))))

level-warn : (set_log_level (bytes_of "warn") daily).level ≡ 2
unfolding set_log_level
level-warn = refl

-- A name that is not known sets the level of `INFO`.
level-unknown : (set_log_level (bytes_of "TRACE") daily).level ≡ 3
unfolding set_log_level
level-unknown = refl

level-adjusted : (adjust_log_level (negsuc 9) daily).level ≡ 0
unfolding adjust_log_level set_file_name new
level-adjusted = refl

write-error :
    write zone 90002 [] true (some 6) 1 (49 ∷ []) (65 ∷ []) 0 daily
    ≡ (daily, writes 5 (49 ∷ 32 ∷ 65 ∷ 10 ∷ []) ∷ complains ∷ reports [] ∷ [])
unfolding write set_file_name new
write-error = refl
