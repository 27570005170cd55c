-- ===== src/Kafka/Auth.antt =====
-- pkg/messaging/kafka/auth: the strategies and the dialers that they make. `scram` gives the error of the
-- library that prepares the credentials, for SHA-512 or SHA-256.
use devkit_go.Prelude.{
  ℕ, subst, ◌≤◌, ◌≡◌, ◌⊎◌, inl, inr, refl, arith, Bool, true, Option, none, some, [], if◌then◌else◌,
  Result, ok, err, ◌||◌, Bool-cases, Option-cases,
}
use devkit_go.Prelude.Int.{ℤ, pos}
use devkit_go.Prelude.Text.{Text, codes, text_eq}

pub data Strategy : Type 0 where
  plaintext plain scram confluent : Strategy

unfoldable pub new_strategy : Text → Strategy
new_strategy strategy_type =
    if text_eq strategy_type (codes "PLAINTEXT")
    then plaintext
    else if text_eq strategy_type (codes "PLAIN")
    then plain
    else if text_eq strategy_type (codes "SCRAM")
    then scram
    else confluent

unfoldable pub name : Strategy → Text
name plaintext = codes "PLAINTEXT"
name plain = codes "PLAIN"
name scram = codes "SCRAM"
name confluent = codes "CONFLUENT"

-- `min_version` is that of package crypto/tls, in which 771 is TLS 1.2.
pub record TlsConfig : Type 0 where
  pub min_version : ℕ
  pub insecure_skip_verify : Bool

pub record AuthConfig : Type 0 where
  pub username : Text
  pub password : Text
  pub tls_config : Option TlsConfig
  pub insecure_skip_verify : Bool
  pub algorithm : Text

pub data Hash : Type 0 where
  sha256 sha512 : Hash

pub data Mechanism : Type 0 where
  plain_mechanism : Text → Text → Mechanism
  scram_mechanism : Hash → Text → Text → Mechanism

pub record Dialer : Type 0 where
  pub mechanism : Option Mechanism
  pub tls : Option TlsConfig
  pub timeout : ℤ
  pub dual_stack : Bool
  pub client_id : Text

pub data AuthError : Type 0 where
  unsupported_algorithm : AuthError
  mechanism_failed : Text → AuthError

abbrev pub scram_sha256 : Text
scram_sha256 = codes "SCRAM-SHA-256"

abbrev pub scram_sha512 : Text
scram_sha512 = codes "SCRAM-SHA-512"

-- A configuration of TLS that is given is used as it is.
abbrev pub tls_of : AuthConfig → TlsConfig
tls_of c = elim (c.tls_config) [
  | some t ↦ t
  | none ↦ record { min_version = 771; insecure_skip_verify = c.insecure_skip_verify }
]

abbrev pub secured : Mechanism → Text → AuthConfig → Dialer
secured mechanism client_id c = record {
  mechanism = some mechanism;
  tls = some (tls_of c);
  timeout = pos 10000000000;
  dual_stack = true;
  client_id = client_id;
}

module _ (prepare : Hash → Text → Text → Option Text) where
  abbrev pub scram_dialer : Hash → Text → AuthConfig → Result AuthError Dialer
  scram_dialer hash client_id c = elim (prepare hash c.username c.password) [
    | some e ↦ err (mechanism_failed e)
    | none ↦ ok (secured (scram_mechanism hash c.username c.password) client_id c)
  ]

  unfoldable pub configure_scram : AuthConfig → Result AuthError Dialer
  configure_scram c =
      if text_eq c.algorithm scram_sha256
      then scram_dialer sha256 [] c
      else if text_eq c.algorithm scram_sha512 || text_eq c.algorithm []
      then scram_dialer sha512 [] c
      else err unsupported_algorithm

  -- SHA-512 is tried first, whatever the algorithm is.
  unfoldable pub configure_confluent : AuthConfig → Result AuthError Dialer
  configure_confluent c =
      let client_id = codes "devkit-go-client" in
      elim (prepare sha512 c.username c.password) [
        | none ↦ ok (secured (scram_mechanism sha512 c.username c.password) client_id c)
        | some e ↦
            if text_eq c.algorithm scram_sha256
            then scram_dialer sha256 client_id c
            else err (mechanism_failed e)
      ]

  unfoldable pub configure_plain : AuthConfig → Dialer
  configure_plain c = secured (plain_mechanism c.username c.password) [] c

  unfoldable pub configure_plaintext : Dialer
  configure_plaintext = record {
    mechanism = none;
    tls = none;
    timeout = pos 10000000000;
    dual_stack = true;
    client_id = [];
  }

  unfoldable pub configure : Strategy → AuthConfig → Result AuthError Dialer
  configure plaintext c = ok configure_plaintext
  configure plain c = ok (configure_plain c)
  configure scram c = configure_scram c
  configure confluent c = configure_confluent c

  -- TLS as the configuration gives it, or else at least 1.2 with certificates that are verified unless
  -- the configuration skips that.
  abbrev pub IsEncrypted : AuthConfig → Dialer → Type 0
  IsEncrypted c d =
      (t : TlsConfig) × (d.tls ≡ some t)
      × ((c.tls_config ≡ some t)
          ⊎ ((c.tls_config ≡ none)
              × (771 ≤ t.min_version)
              × (t.insecure_skip_verify ≡ c.insecure_skip_verify)))

  abbrev pub IsScram : AuthConfig → Dialer → Type 0
  IsScram c d = (hash : Hash) × (d.mechanism ≡ some (scram_mechanism hash c.username c.password))

  -- No credentials under the plaintext strategy, and those of the configuration, encrypted, otherwise.
  abbrev pub IsSecure : Strategy → AuthConfig → Dialer → Type 0
  IsSecure plaintext c d = d.mechanism ≡ none
  IsSecure plain c d =
      (d.mechanism ≡ some (plain_mechanism c.username c.password)) × IsEncrypted c d
  IsSecure scram c d = IsScram c d × IsEncrypted c d
  IsSecure confluent c d = IsScram c d × IsEncrypted c d

  secured-IsEncrypted :
      (mechanism : Mechanism) (client_id : Text) (c : AuthConfig)
      → IsEncrypted c (secured mechanism client_id c)
  secured-IsEncrypted mechanism client_id c = elim (Option-cases c.tls_config) [
    | inl missing ↦
        (tls_of c, refl, inr (missing, ground (arith, missing), ground (arith, missing)))
    | inr (t, given) ↦ (tls_of c, refl, inl (ground (arith, given)))
  ]

  scram_dialer-secured :
      (hash : Hash) (client_id : Text) (c : AuthConfig) {d : Dialer}
      → scram_dialer hash client_id c ≡ ok d
      → secured (scram_mechanism hash c.username c.password) client_id c ≡ d
  scram_dialer-secured hash client_id c h = ground arith

  -- What a SCRAM mechanism over the TLS of the configuration is.
  secured-IsScram :
      (hash : Hash) (client_id : Text) (c : AuthConfig) {d : Dialer}
      → secured (scram_mechanism hash c.username c.password) client_id c ≡ d
      → IsScram c d × IsEncrypted c d
  secured-IsScram hash client_id c same =
      subst (λ d. IsScram c d × IsEncrypted c d) same
        ((hash, refl), secured-IsEncrypted (scram_mechanism hash c.username c.password) client_id c)

  -- Without an error, the dialer carries no credentials under the plaintext strategy, and otherwise those
  -- of the configuration over TLS: as it is given, or at least 1.2 with certificates that are verified
  -- unless the configuration skips that.
  pub configure-IsSecure :
      (s : Strategy) (c : AuthConfig) {d : Dialer} → configure s c ≡ ok d → IsSecure s c d
  unfolding configure configure_plain configure_plaintext configure_scram configure_confluent
  configure-IsSecure plaintext c h = ground arith
  configure-IsSecure plain c {d} h =
      let same : secured (plain_mechanism c.username c.password) [] c ≡ d = ground arith in
      subst (λ x. IsSecure plain c x) same
        (refl, secured-IsEncrypted (plain_mechanism c.username c.password) [] c)
  configure-IsSecure scram c {d} h = elim (Bool-cases (text_eq c.algorithm scram_sha256)) [
    | inl short ↦
        secured-IsScram sha256 [] c {d = d}
          (scram_dialer-secured sha256 [] c {d = d} (ground arith))
    | inr other ↦
        secured-IsScram sha512 [] c {d = d}
          (scram_dialer-secured sha512 [] c {d = d} (ground arith))
  ]
  configure-IsSecure confluent c {d} h =
      let id = codes "devkit-go-client" in
      elim (Option-cases (prepare sha512 c.username c.password)) [
        | inl fine ↦ secured-IsScram sha512 id c {d = d} (ground arith)
        | inr (e, failed) ↦
            secured-IsScram sha256 id c {d = d}
              (scram_dialer-secured sha256 id c {d = d} (ground arith))
      ]
