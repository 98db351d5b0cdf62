-- ===== src/Config/Listing.antt =====
-- A viper that holds what it looks keys up in, over one readable file and an environment of one variable.
use bbdb.Base.{
  ◌≡◌, refl, sym, Bool-cases, inl, inr, ok-injective, List, [], ◌∷◌, Bool, true, Option, none, some,
  Result, ok, err, not_exist, io, if◌then◌else◌, arith,
}
use bbdb.Base.Int.{pos}
use bbdb.Base.Bytes.{Bytes, eq_bytes}
use bbdb.Files.{FilePath}
use bbdb.Config.Load.{codes, Value, text, number, first_of, Seen, nothing_seen, Viper}

-- The file `f` sets the ring to 8 places; there is no other.
abbrev pub said_by : FilePath → Bytes → Option (Value Bool)
said_by p k = if eq_bytes (codes "ingestion.ring_buf_size") k then some (number (pos 8)) else none

-- The environment sets the level of the log, for the prefix that begins with `B`.
abbrev pub variable : Bytes → List Bytes → Bytes → Option (Value Bool)
variable [] r k = none
variable (b ∷ bs) r k = if eq_bytes (codes "log.level") k then some (text (codes "warn")) else none

abbrev pub read_held : Seen Bool → Result (Seen Bool)
read_held v =
    if eq_bytes v.named (b'f' ∷ []) then ok (record v { file = said_by v.named }) else err not_exist

pub read_held-file :
    (v v' : Seen Bool) → read_held v ≡ ok v' → v' ≡ record v { file = said_by v.named }
read_held-file v v' run = elim (Bool-cases (eq_bytes v.named (b'f' ∷ []))) [
  | inl t ↦ sym (ok-injective _ v' (rw (t, read_held) at run))
  | inr f ↦ absurd (ground (arith, f, run))
]

-- The viper of an environment.
abbrev pub viper_of : (Bytes → List Bytes → Bytes → Option (Value Bool)) → Viper Bool
viper_of variables = record {
  V = Seen Bool;
  one_percent = true;
  env_value = variables;
  file_value = said_by;
  weak_text = λ v. err (io 6);
  weak_number = λ v. err (io 6);
  weak_duration = λ v. err (io 6);
  weak_rate = λ v. err (io 6);
  weak_flag = λ v. err (io 6);
  new = nothing_seen;
  set_default = λ j x v. record v { fallback = λ k. if eq_bytes j k then some x else v.fallback k };
  automatic_env = λ p r v. record v { env = variables p r };
  set_config_file = λ p v. record v { named = p };
  read_in_config = read_held;
  get = λ v k. first_of (first_of (v.env k) (v.file k)) (v.fallback k);
  seen = λ v. v;
  get_lem = λ v k. refl;
  seen-new = refl;
  seen-set_default = λ j x v. refl;
  seen-automatic_env = λ p r v. refl;
  seen-set_config_file = λ p v. refl;
  seen-read_in_config = read_held-file;
}

abbrev pub listing : Viper Bool
listing = viper_of variable

-- With no variable set.
abbrev pub unset : Viper Bool
unset = viper_of (λ p r k. none)
