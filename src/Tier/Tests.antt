-- ===== src/Tier/Tests.antt =====
-- Stores at concrete files.
use bbdb.Base.{◌≡◌, refl, [], ◌∷◌, false, none, some}
use bbdb.Base.Bytes.{eq_bytes}
use bbdb.Files.{Fs, FilePath, update}
use bbdb.Meta.Keys.{BlockId}
use bbdb.Tier.Local.{LocalStore, block_path, bloom_path, delete, migrate}
use bbdb.Tier.Local.Migration.{migrate_lem}

abbrev a_block : BlockId
a_block = b'0' ∷ b'7' ∷ b':' ∷ b'T' ∷ []

abbrev hot : LocalStore
hot = record { root = b'/' ∷ b'h' ∷ []; tier = 0 }

abbrev warm : LocalStore
warm = record { root = b'/' ∷ b'w' ∷ []; tier = 1 }

abbrev hot_block : FilePath
hot_block =
    b'/' ∷ b'h' ∷ b'/' ∷ b'b' ∷ b'l' ∷ b'o' ∷ b'c' ∷ b'k' ∷ b's' ∷ b'/' ∷ b'0' ∷ b'7' ∷ b'/' ∷ b'T'
    ∷ b'.' ∷ b'b' ∷ b'l' ∷ b'o' ∷ b'c' ∷ b'k' ∷ []

hot_path : block_path hot a_block ≡ hot_block
unfolding block_path
hot_path = refl

abbrev tmp : FilePath
tmp = b'/' ∷ b't' ∷ []

-- The block file in the hot store, and a file of another name.
abbrev files : Fs
files = record {
  content = update (update (λ p. none) hot_block (some (1 ∷ 2 ∷ []))) tmp (some (9 ∷ []));
  fault = λ c p. false;
}

abbrev deleted : Fs
unfolding delete
deleted = (delete hot a_block files).1

abbrev migrated : Fs
unfolding migrate
migrated = (migrate hot tmp a_block warm files).1

migrate_lem_example : migrated.content (bloom_path warm a_block) ≡ none
unfolding migrate eq_bytes block_path bloom_path
migrate_lem_example =
    (migrate_lem hot tmp a_block warm files migrated refl refl).2 (bloom_path warm a_block)
