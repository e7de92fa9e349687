-- ===== src/Net/Logger.antt =====
-- net/log.h and net/log.cc: the level of a logger, its file and the file's rotation, and the line
-- that a message becomes. What the system calls answer and what `vsnprintf` prints are arguments;
-- what is done with descriptors and files is a list of effects. The rotation's interval is positive.
pub mod Rotation
pub mod Line
mod Tests
use jnet.Base.{
  ℕ, zero, suc, ◌+◌, ◌-◌, ◌/◌, Bool, true, false, not, ◌&&◌, ◌||◌, Option, none, some, List, [],
  ◌∷◌, ◌++◌, ◌==◌, ltb, leb, if◌then◌else◌, length, take, drop, map, min, max,
}
use jnet.Base.Int.{ℤ, pos, negsuc, ltb_ℤ, ◌+ℤ◌}
use jnet.Base.Assoc.{eq_bytes}
use jnet.Net.Http.Text.{bytes_of}

-- `fd_`, which is none for -1, and the level's number, from 0 for `LFATAL` to 6 for `LALL`.
pub record Logger : Type 0 where
  pub fd : Option ℕ
  pub level : ℕ
  pub last_rotate : ℕ
  pub real_rotate : ℕ
  pub rotate_interval : ℕ
  pub filename : List ℕ

pub data Effect : Type 0 where
  renames : List ℕ → List ℕ → Effect
  duplicates : ℕ → ℕ → Effect
  closes : ℕ → Effect
  writes : ℕ → List ℕ → Effect
  reports : List ℕ → Effect
  prints : List ℕ → Effect
  complains : Effect

-- `Logger()`, with the time of its start.
unfoldable pub new : ℕ → Logger
new now = record {
  fd = none;
  level = 6;
  last_rotate = now;
  real_rotate = now;
  rotate_interval = 86400;
  filename = [];
}

abbrev pub level_strs : List (List ℕ)
level_strs =
    bytes_of "FATAL"
    ∷ bytes_of "ERROR"
    ∷ bytes_of "WARN"
    ∷ bytes_of "INFO"
    ∷ bytes_of "DEBUG"
    ∷ bytes_of "TRAVE"
    ∷ bytes_of "ALL"
    ∷ []

abbrev pub to_upper : ℕ → ℕ
to_upper c = if leb 97 c && leb c 122 then c - 32 else c

-- `strcasecmp(a, b) == 0`.
unfoldable pub same_word : List ℕ → List ℕ → Bool
unfolding eq_bytes
same_word a b = eq_bytes (map to_upper a) (map to_upper b)

-- The loop of `SetLogLevel(level)`, from the names of number `i` on.
unfoldable pub level_of : List (List ℕ) → ℕ → List ℕ → ℕ
unfolding same_word
level_of [] i name = 3
level_of (s ∷ names) i name =
    let rest = level_of names (i + 1) name in if same_word s name then i else rest

-- `SetLogLevel(level)` of a number: never below `LFATAL`, never above `LALL`.
unfoldable pub set_level : ℤ → Logger → Logger
set_level level l = elim level [
  | pos n ↦ record l { level = min 6 n }
  | negsuc n ↦ record l { level = 0 }
]

-- `SetLogLevel(level)` of a name, on the logger of `GetLogger()`.
unfoldable pub set_log_level : List ℕ → Logger → Logger
unfolding set_level level_of
set_log_level name l = set_level (pos (level_of level_strs 0 name)) l

-- `AdjustLogLevel(adjust)`.
unfoldable pub adjust_log_level : ℤ → Logger → Logger
unfolding set_level ◌+ℤ◌
adjust_log_level adjust l = set_level (pos l.level +ℤ adjust) l

-- `SetFileName(filename)`, with what `open` returns.
unfoldable pub set_file_name : List ℕ → Option ℕ → Logger → Logger × List Effect
set_file_name name none l = (l, complains ∷ [])
set_file_name name (some fd) l = elim l.fd [
  | none ↦ (record l { filename = name; fd = some fd }, [])
  | some old ↦ (record l { filename = name }, duplicates fd old ∷ closes fd ∷ [])
]

-- `timezone` as the seconds that the zone is east or west of Greenwich.
pub record Zone : Type 0 where
  pub east : ℕ
  pub west : ℕ

-- `(t - timezone) / rotateInterval_`.
abbrev pub period : Zone → ℕ → ℕ → ℕ
period zone interval t = (t + zone.east - zone.west) / interval

-- The `dup2` behind the second `open`; a `fd_` of -1 makes it fail.
abbrev pub redirect : ℕ → Option ℕ → List Effect
redirect fd none = closes fd ∷ []
redirect fd (some old) = duplicates fd old ∷ closes fd ∷ []

-- The renaming of `MaybeRotate`: whether `rename` succeeds, and what `open` returns.
abbrev pub rename_file : List ℕ → Bool → Option ℕ → Logger → List Effect
rename_file stamp renamed opened l =
    renames l.filename (l.filename ++ stamp)
    ∷ (if renamed
        then elim opened [ none ↦ complains ∷ [] | some fd ↦ redirect fd l.fd ]
        else complains ∷ [])

abbrev pub is_empty : List ℕ → Bool
is_empty [] = true
is_empty (x ∷ xs) = false

-- `MaybeRotate()`.
unfoldable pub maybe_rotate : Zone → ℕ → List ℕ → Bool → Option ℕ → Logger → Logger × List Effect
maybe_rotate zone now stamp renamed opened l =
    let at = period zone l.rotate_interval in
    let marked = record l { last_rotate = now; real_rotate = now } in
    if is_empty l.filename || at now == at l.last_rotate
    then (l, [])
    else if at l.real_rotate == at now
    then (marked, [])
    else (marked, rename_file stamp renamed opened marked)

-- The loop that trims the ending newlines.
unfoldable pub trim : List ℕ → List ℕ
trim [] = []
trim (c ∷ cs) =
    let rest = trim cs in
    if c == 10 then elim rest [ [] ↦ [] | y ∷ ys ↦ c ∷ (y ∷ ys) ] else c ∷ rest

-- The bytes that `Write` makes in its buffer of 4096, of the time and of the message.
unfoldable pub line : List ℕ → List ℕ → List ℕ
unfolding trim
line stamp message = trim (take 4094 (stamp ++ 32 ∷ message)) ++ (10 ∷ [])

abbrev pub out_fd : Option ℕ → ℕ
out_fd none = 1
out_fd (some fd) = fd

-- `Write(level, file, line, func, fmt, ...)` behind its call of `MaybeRotate`, with the number of
-- bytes that `write` takes.
unfoldable pub write_line : ℕ → List ℕ → List ℕ → ℕ → Logger → List Effect
unfolding line
write_line level stamp message written l =
    let text = line stamp message in
    writes (out_fd l.fd) text
    ∷ ((if written == length text then [] else complains ∷ [])
        ++ ((if leb level 1 then reports (drop 27 text) ∷ [] else [])
            ++ (if level == 0 then prints text ∷ [] else [])))

-- `Write`; `old_stamp` is the time that a renamed file gets.
unfoldable pub write :
    Zone → ℕ → List ℕ → Bool → Option ℕ → ℕ → List ℕ → List ℕ → ℕ → Logger → Logger × List Effect
unfolding maybe_rotate write_line
write zone now old_stamp renamed opened level stamp message written l =
    let (rotated, done) = maybe_rotate zone now old_stamp renamed opened l in
    if ltb l.level level
    then (l, [])
    else (rotated, done ++ write_line level stamp message written rotated)
