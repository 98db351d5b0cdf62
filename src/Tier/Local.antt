-- ===== src/Tier/Local.antt =====
-- internal/tier/local.go: a store of block files in a directory. Paths are joined as
-- `filepath.Join` does for a clean root and for parts without `.`, `..` and `/`.
pub mod Effects
pub mod Migration
use bbdb.Base.{
  ◌≡◌, List, [], ◌∷◌, ◌++◌, Bool, true, false, not, ◌==◌, ℕ, if◌then◌else◌, Result, ok, err, Error,
  not_exist,
}
use bbdb.Base.Bytes.{Bytes}
use bbdb.Base.State.{St, ◌>>=◌, ◌>>◌, ◌or_else◌, lift}
use bbdb.Files.{
  Fs, FilePath, mkdir_all, create_file, write_file, sync_file, stat_file, remove_file, rename_file,
  read_file,
}
use bbdb.Meta.Keys.{BlockId}

pub record LocalStore : Type 0 where
  pub root : FilePath
  pub tier : ℕ

-- `filepath.Join`: the parts that are not empty, with `/` between them.
unfoldable pub join_onto : FilePath → List Bytes → FilePath
join_onto acc [] = acc
join_onto acc ([] ∷ ps) = join_onto acc ps
join_onto [] ((b ∷ p) ∷ ps) = join_onto (b ∷ p) ps
join_onto (a ∷ acc) ((b ∷ p) ∷ ps) = join_onto ((a ∷ acc) ++ 47 ∷ b ∷ p) ps

abbrev pub blocks_dir : Bytes
blocks_dir = 98 ∷ 108 ∷ 111 ∷ 99 ∷ 107 ∷ 115 ∷ []

abbrev pub block_ext : Bytes
block_ext = 46 ∷ 98 ∷ 108 ∷ 111 ∷ 99 ∷ 107 ∷ []

abbrev pub bloom_ext : Bytes
bloom_ext = 46 ∷ 98 ∷ 108 ∷ 111 ∷ 111 ∷ 109 ∷ []

-- The two sides of the first colon; with no colon, all of it and nothing.
unfoldable pub split_block_id : BlockId → Bytes × Bytes
split_block_id [] = ([], [])
split_block_id (c ∷ cs) =
    let rest = split_block_id cs in if c == 58 then ([], cs) else (c ∷ rest.0, rest.1)

-- The directory of a shard.
unfoldable pub shard_dir : LocalStore → Bytes → FilePath
unfolding join_onto
shard_dir s shard = join_onto [] (s.root ∷ blocks_dir ∷ shard ∷ [])

unfoldable pub block_path : LocalStore → BlockId → FilePath
unfolding split_block_id shard_dir join_onto
block_path s id =
    let (shard, hour) = split_block_id id in
    join_onto (shard_dir s shard) ((hour ++ block_ext) ∷ [])

unfoldable pub bloom_path : LocalStore → BlockId → FilePath
unfolding split_block_id shard_dir join_onto
bloom_path s id =
    let (shard, hour) = split_block_id id in
    join_onto (shard_dir s shard) ((hour ++ bloom_ext) ∷ [])

unfoldable pub new_local_store : FilePath → ℕ → St Fs LocalStore
unfolding join_onto
new_local_store root t =
    mkdir_all (join_onto [] (root ∷ blocks_dir ∷ []))
    >> (λ fs. (ok (record { root = root; tier = t }), fs))

unfoldable pub put : LocalStore → BlockId → FilePath → St Fs (Unit {0})
put s id src_path =
    mkdir_all (shard_dir s (split_block_id id).0) >> rename_file src_path (block_path s id)

unfoldable pub get : LocalStore → BlockId → St Fs Bytes
get s id fs = (read_file fs (block_path s id), fs)

abbrev pub is_there : Result ℕ × Fs → Result Bool × Fs
is_there (ok n, fs) = (ok true, fs)
is_there (err not_exist, fs) = (ok false, fs)
is_there (err e, fs) = (err e, fs)

unfoldable pub exists : LocalStore → BlockId → St Fs Bool
exists s id fs = is_there (stat_file (block_path s id) fs)

-- An error that is no missing file.
abbrev pub unless_missing : Result (Unit {0}) × Fs → Result (Unit {0}) × Fs
unless_missing (err not_exist, fs) = (ok tt, fs)
unless_missing (ok u, fs) = (ok u, fs)
unless_missing (err e, fs) = (err e, fs)

abbrev pub remove_if_there : FilePath → St Fs (Unit {0})
remove_if_there p fs = unless_missing (remove_file p fs)

unfoldable pub delete : LocalStore → BlockId → St Fs (Unit {0})
delete s id = remove_if_there (block_path s id) >> remove_if_there (bloom_path s id)

unfoldable pub copy_file : FilePath → FilePath → St Fs (Unit {0})
copy_file src dst fs =
    ((λ fs. (read_file fs src, fs)) >>= λ bytes.
    (create_file dst >> write_file dst bytes) >> sync_file dst)
      fs

-- `tmp` is the name that `os.CreateTemp` makes up.
unfoldable pub migrate : LocalStore → FilePath → BlockId → LocalStore → St Fs (Unit {0})
unfolding delete put copy_file
migrate s tmp id dst =
    create_file tmp
    >> (copy_file (block_path s id) tmp or_else remove_file tmp)
    >> (put dst id tmp or_else remove_file tmp)
    >> delete s id
