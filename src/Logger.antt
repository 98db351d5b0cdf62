-- ===== src/Logger.antt =====
-- internal/logger/logger.go: the logger that `Init` builds from a configuration. zap is a parameter.
use bbdb.Base.{
  ◌≡◌, ◌≢◌, refl, sym, ap, ◌∙◌, subst, List, [], ◌∷◌, Result, ok, err, Error, io, if◌then◌else◌,
  is_empty, Bool-cases, inl, inr, Result-cases, arith, ◌>>=◌,
}
use bbdb.Base.Bytes.{Bytes, eq_bytes}
use bbdb.Config.{LogConfig, LogFileConfig}
use bbdb.Config.Load.{codes}

-- The fields of an encoder's configuration that the code sets; `defaults` stands for the others.
pub record EncoderConfig (Defaults Time : Type 0) : Type 0 where
  pub defaults : Defaults
  pub time_key : Bytes
  pub message_key : Bytes
  pub level_key : Bytes
  pub encode_time : Time

-- `unmarshal_text` is the method of the level.
pub record Zap : Type 1 where
  pub Level : Type 0
  pub Defaults : Type 0
  pub Time : Type 0
  pub unmarshal_text : Bytes → Result Level
  pub development : EncoderConfig Defaults Time
  pub production : EncoderConfig Defaults Time
  pub iso8601 : Time

module _ (zap : Zap) where
  open zap use {Level, Defaults, Time, development, production, iso8601}

  pub data Encoder : Type 0 where
    console : EncoderConfig Defaults Time → Encoder
    json : EncoderConfig Defaults Time → Encoder

  -- Where the lines go: the standard output, or a file that is rotated.
  pub data Sink : Type 0 where
    stdout : Sink
    rotated : LogFileConfig → Sink

  pub record Core : Type 0 where
    pub encoder : Encoder
    pub sink : Sink
    pub level : Level

  abbrev pub unknown_level : Error
  unknown_level = io 7

  abbrev pub unknown_format : Error
  unknown_format = io 8

  abbrev wrapped : Result Level → Result Level
  wrapped (ok l) = ok l
  wrapped (err e) = err unknown_level

  unfoldable pub parse_level : Bytes → Result Level
  parse_level s = wrapped (zap.unmarshal_text s)

  unfoldable pub build_encoder : Bytes → Result Encoder
  build_encoder format =
      if eq_bytes format (codes "text")
      then ok (console development)
      else if eq_bytes format (codes "json")
      then ok (json production)
      else if eq_bytes format (codes "json-ecs")
      then ok (
          json (record production {
            time_key = codes "@timestamp";
            message_key = codes "message";
            level_key = codes "log.level";
            encode_time = iso8601;
          }))
      else err unknown_format

  -- The cores of the logger.
  abbrev pub cores_of : LogConfig → Level → Encoder → List Core
  cores_of cfg level enc =
      let out : Core = record { encoder = enc; sink = stdout; level = level } in
      if is_empty cfg.file.path
      then out ∷ []
      else out ∷ record { encoder = enc; sink = rotated cfg.file; level = level } ∷ []

  -- The cores of the global logger.
  unfoldable pub init : LogConfig → Result (List Core)
  init cfg = do
    level ← parse_level cfg.level
    enc ← build_encoder cfg.format
    ok (cores_of cfg level enc)

  -- How `Init` ends.
  pub data IsInit (cfg : LogConfig) : Result (List Core) → Type 0 where
    no_level : (e : Error) → zap.unmarshal_text cfg.level ≡ err e → IsInit cfg (err unknown_level)
    no_format :
        cfg.format ≢ codes "text"
        → cfg.format ≢ codes "json"
        → cfg.format ≢ codes "json-ecs"
        → IsInit cfg (err unknown_format)
    installed :
        (out : Core) (files : List Core)
        → zap.unmarshal_text cfg.level ≡ ok out.level
        → build_encoder cfg.format ≡ ok out.encoder
        → out.sink ≡ stdout
        → files
          ≡ (if is_empty cfg.file.path then [] else record out { sink = rotated cfg.file } ∷ [])
        → IsInit cfg (ok (out ∷ files))

  build_encoder-err :
      (format : Bytes) (e : Error)
      → build_encoder format ≡ err e
      → (e ≡ unknown_format)
        × (format ≢ codes "text")
        × (format ≢ codes "json")
        × (format ≢ codes "json-ecs")
  unfolding build_encoder eq_bytes
  build_encoder-err format e h = (
    ground (arith, h),
    λ same. absurd (ground (arith, sym (ap build_encoder same) ∙ h)),
    λ same. absurd (ground (arith, sym (ap build_encoder same) ∙ h)),
    λ same. absurd (ground (arith, sym (ap build_encoder same) ∙ h)),
  )

  cores_of-IsInit :
      (cfg : LogConfig) (level : Level) (enc : Encoder)
      → zap.unmarshal_text cfg.level ≡ ok level
      → build_encoder cfg.format ≡ ok enc
      → IsInit cfg (ok (cores_of cfg level enc))
  cores_of-IsInit cfg level enc h b = elim (Bool-cases (is_empty cfg.file.path)) [
    | inl t ↦
        rw t (
          installed (record { encoder = enc; sink = stdout; level = level }) [] h b refl
            (rw t refl))
    | inr f ↦ rw f (
        installed (record { encoder = enc; sink = stdout; level = level })
          (record { encoder = enc; sink = rotated cfg.file; level = level } ∷ []) h b refl
          (rw f refl))
  ]

  -- `Init` fails for a level that zap does not know and for a format other than the three, and else
  -- installs a logger for the standard output and, where a path is given, one with the same level and
  -- encoding for the file.
  pub init_lem : (cfg : LogConfig) → IsInit cfg (init cfg)
  unfolding init parse_level
  init_lem cfg = elim (Result-cases (zap.unmarshal_text cfg.level)) [
    | inr (e, h) ↦
        subst (IsInit cfg)
          (sym (
            ap
              (λ r. wrapped r >>= λ level.
                build_encoder cfg.format >>= λ enc. ok (cores_of cfg level enc))
              h))
          (no_level e h)
    | inl (level, h) ↦
        let opened : init cfg ≡ (build_encoder cfg.format >>= λ enc. ok (cores_of cfg level enc)) =
          ap
            (λ r. wrapped r >>= λ level.
              build_encoder cfg.format >>= λ enc. ok (cores_of cfg level enc))
            h in
        elim (Result-cases (build_encoder cfg.format)) [
          | inr (e, b) ↦
              let (unknown, t, j, ecs) = build_encoder-err cfg.format e b in
              subst (IsInit cfg)
                (sym (
                  opened ∙ ap (λ r. r >>= λ enc. ok (cores_of cfg level enc)) (b ∙ ap err unknown)))
                (no_format t j ecs)
          | inl (enc, b) ↦
              subst (IsInit cfg)
                (sym (opened ∙ ap (λ r. r >>= λ enc. ok (cores_of cfg level enc)) b))
                (cores_of-IsInit cfg level enc h b)
        ]
  ]
