-- ===== src/Files.antt =====
-- The parts of Go's os package that BBDB calls: whole files by path, and reads at an offset.
pub mod Laws
use bbdb.Base.{
  ℕ, ◌+◌, ◌^◌, ◌≤◌, ◌<◌, ◌≡◌, List, [], ◌∷◌, ◌++◌, Bool, true, false, Option, none, some, ltb, leb,
  ◌==◌, if◌then◌else◌, length, take, drop, Result, ok, err, Error, io, not_exist, short_read,
}
use bbdb.Base.Bytes.{Bytes, eq_bytes}
use bbdb.Base.State.{St}

abbrev pub FilePath : Type 0
FilePath = Bytes

-- The calls that can go wrong for a reason outside the program.
pub data Call : Type 0 where
  make_dir create write_to sync stat rename_to remove_it open_it : Call

-- `fault c p` is set where the system refuses the call `c` on the path `p`.
pub record Fs : Type 0 where
  pub content : FilePath → Option Bytes
  pub fault : Call → FilePath → Bool

abbrev pub update : (FilePath → Option Bytes) → FilePath → Option Bytes → FilePath → Option Bytes
update f p v q = if eq_bytes p q then v else f q

-- An error of the system, other than a missing file.
abbrev pub refused : Error
refused = io 5

-- `os.MkdirAll`. Directories are not part of the model.
abbrev pub mkdir_all : FilePath → St Fs (Unit {0})
mkdir_all p fs = (if fs.fault Call.make_dir p then err refused else ok tt, fs)

-- `os.Create`: an empty file, whatever was there.
abbrev pub create_file : FilePath → St Fs (Unit {0})
create_file p fs =
    if fs.fault Call.create p
    then (err refused, fs)
    else (ok tt, record fs { content = update fs.content p (some []) })

abbrev appended : Option Bytes → Bytes → Bytes
appended none b = b
appended (some a) b = a ++ b

-- `f.Write` on an open file.
abbrev pub write_file : FilePath → Bytes → St Fs (Unit {0})
write_file p b fs =
    if fs.fault Call.write_to p
    then (err refused, fs)
    else (ok tt, record fs { content = update fs.content p (some (appended (fs.content p) b)) })

-- `f.Sync`
abbrev pub sync_file : FilePath → St Fs (Unit {0})
sync_file p fs = (if fs.fault Call.sync p then err refused else ok tt, fs)

abbrev size_of : Option Bytes → Result ℕ
size_of none = err not_exist
size_of (some b) = ok (length b)

-- `f.Stat` and `os.Stat`, for the size.
abbrev pub stat_file : FilePath → St Fs ℕ
stat_file p fs = (if fs.fault Call.stat p then err refused else size_of (fs.content p), fs)

abbrev removed : Fs → FilePath → Option Bytes → Result (Unit {0}) × Fs
removed fs p none = (err not_exist, fs)
removed fs p (some b) = (ok tt, record fs { content = update fs.content p none })

-- `os.Remove`
abbrev pub remove_file : FilePath → St Fs (Unit {0})
remove_file p fs =
    if fs.fault Call.remove_it p then (err refused, fs) else removed fs p (fs.content p)

abbrev renamed : Fs → FilePath → FilePath → Option Bytes → Result (Unit {0}) × Fs
renamed fs src dst none = (err not_exist, fs)
renamed fs src dst (some b) =
    (ok tt, record fs { content = update (update fs.content src none) dst (some b) })

-- `os.Rename`: what was at the target is gone.
abbrev pub rename_file : FilePath → FilePath → St Fs (Unit {0})
rename_file src dst fs =
    if fs.fault Call.rename_to dst then (err refused, fs) else renamed fs src dst (fs.content src)

abbrev found : Option Bytes → Result Bytes
found none = err not_exist
found (some b) = ok b

-- `os.Open` and `os.ReadFile`, with the whole content.
abbrev pub read_file : Fs → FilePath → Result Bytes
read_file fs p = if fs.fault Call.open_it p then err refused else found (fs.content p)

-- `f.ReadAt(buf, off)` with `n` bytes of room: all of them, or an error. An offset that is negative
-- as an int64 is refused.
unfoldable pub read_at : Bytes → ℕ → ℕ → Result Bytes
read_at file n off =
    if leb (2 ^ 63) off
    then err short_read
    else if n == 0
    then ok []
    else if ltb (length file) (off + n)
    then err short_read
    else ok (take n (drop off file))
