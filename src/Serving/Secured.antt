-- ===== src/Serving/Secured.antt =====
-- Setup of pkg/metrics/server: what the server is started with.
use resource_topology_export.Base.{
  ℕ, ◌≡◌, ◌≢◌, ◌⊎◌, refl, inl, inr, Bool, true, false, ◌++◌, Option, none, List, [], ◌∷◌, Text,
  Result, ok, failed, nat_beq, nat_beq_iff, Bool-cases, Result-cases, sym, ap, ◌∙◌,
}
use resource_topology_export.Base.Strings.{codes, is_space, trim}
use resource_topology_export.Config.{TlsConfig}
use resource_topology_export.Serving.{
  ClientAuth, no_client_cert, require_and_verify, CryptoConfig, TlsOpt, TlsNames, version_tls13,
  split_non_empty_csv, tls13_policy_opt, tls12_and_earlier_policy_opt, with_http11,
  with_client_auth, named_policy, policy_for, metrics_tls_policy_opts,
  build_secure_metrics_tls_opts,
}

-- The options change the configuration in turn.
unfoldable pub apply_opts : List TlsOpt → CryptoConfig → CryptoConfig
apply_opts [] cfg = cfg
apply_opts (opt ∷ opts) cfg = apply_opts opts (opt cfg)

apply_opts-append :
    (opts more : List TlsOpt) (cfg : CryptoConfig)
    → apply_opts (opts ++ more) cfg ≡ apply_opts more (apply_opts opts cfg)
unfolding apply_opts
apply_opts-append [] more cfg = refl
apply_opts-append (opt ∷ opts) more cfg = apply_opts-append opts more (opt cfg)

-- What a policy of versions and ciphers makes of a configuration.
pub data Policed {E : Type 0} (names : TlsNames E) (version : Text) (ciphers : List Text)
    (before after : CryptoConfig) : Type 0 where
  unpoliced :
      version ≡ [] → ciphers ≡ [] → after ≡ before → Policed names version ciphers before after
  only_tls13 :
      names.tls_version version ≡ ok version_tls13
      → after
        ≡ record before { min_version = version_tls13; max_version = version_tls13; ciphers = none }
      → Policed names version ciphers before after
  from_version :
      (v : ℕ) (ids : Option (List ℕ))
      → names.tls_version version ≡ ok v
      → v ≢ version_tls13
      → names.tls_cipher_suites ciphers ≡ ok ids
      → after ≡ record before { min_version = v; ciphers = ids }
      → Policed names version ciphers before after

-- Why there is no policy: something is named, and the version or, after it, a cipher is unknown.
pub data Unpoliceable {E : Type 0} (names : TlsNames E) (version : Text) (ciphers : List Text)
    (e : E) : Type 0 where
  bad_version :
      (version ≢ []) ⊎ (ciphers ≢ [])
      → names.tls_version version ≡ failed e
      → Unpoliceable names version ciphers e
  bad_cipher :
      (v : ℕ)
      → (version ≢ []) ⊎ (ciphers ≢ [])
      → names.tls_version version ≡ ok v
      → names.tls_cipher_suites ciphers ≡ failed e
      → Unpoliceable names version ciphers e

abbrev pub auth_of : Bool → ClientAuth
auth_of false = no_client_cert
auth_of true = require_and_verify

-- The configuration speaks HTTP/1.1, asks for client certificates as told, and is policed.
pub record IsSecured {E : Type 0} (names : TlsNames E) (conf : TlsConfig)
    (before after : CryptoConfig) : Type 0 where
  pub policed : CryptoConfig
  pub is_policed :
      Policed names
        (trim is_space conf.min_tls_version)
        (split_non_empty_csv conf.cipher_suites)
        (record before { next_protos = codes "http/1.1" ∷ [] })
        policed
  pub is_final : after ≡ record policed { client_auth = auth_of conf.want_cli_auth }

module _ {E : Type 0} (names : TlsNames E) where
  named_policy-Policed :
      (version : Text) (ciphers : List Text) (opts : List TlsOpt) (before : CryptoConfig)
      → named_policy names version ciphers ≡ ok opts
      → Policed names version ciphers before (apply_opts opts before)
  unfolding named_policy
  named_policy-Policed version ciphers opts before h =
      elim (Result-cases (names.tls_version version)) [
        | inl (e, p) ↦ let bad = rw (named_policy, p) at h in cc
        | inr (v, p) ↦ elim (Result-cases (names.tls_cipher_suites ciphers)) [
          | inl (e, q) ↦ let bad = rw (named_policy, p, q) at h in cc
          | inr (ids, q) ↦ elim (Bool-cases (nat_beq v version_tls13)) [
            | inl b ↦
                let made : Path (Result E (List TlsOpt)) (ok (tls13_policy_opt ∷ [])) (ok opts) =
                  rw (named_policy, p, q, b) at h in
                let same : (tls13_policy_opt ∷ []) ≡ opts = cc in
                rw (sym same) (
                  only_tls13 (p ∙ ap ok ((nat_beq_iff v version_tls13).0 b))
                    (unfold apply_opts tls13_policy_opt in refl))
            | inr b ↦
                let made : Path (Result E (List TlsOpt))
                    (ok (tls12_and_earlier_policy_opt v ids ∷ [])) (ok opts) =
                  rw (named_policy, p, q, b) at h in
                let same : (tls12_and_earlier_policy_opt v ids ∷ []) ≡ opts = cc in
                rw (sym same) (
                  from_version v ids p (λ e. let yes = (nat_beq_iff v version_tls13).1 e in cc) q
                    (unfold apply_opts tls12_and_earlier_policy_opt in refl))
          ]
        ]
      ]

  named_policy-Unpoliceable :
      (version : Text) (ciphers : List Text) (e : E)
      → (version ≢ []) ⊎ (ciphers ≢ [])
      → named_policy names version ciphers ≡ failed e
      → Unpoliceable names version ciphers e
  unfolding named_policy
  named_policy-Unpoliceable version ciphers e named h =
      elim (Result-cases (names.tls_version version)) [
        | inl (x, p) ↦
            let made : Path (Result E (List TlsOpt)) (failed x) (failed e) =
              rw (named_policy, p) at h in
            let same : x ≡ e = cc in bad_version named (p ∙ ap failed same)
        | inr (v, p) ↦ elim (Result-cases (names.tls_cipher_suites ciphers)) [
          | inl (x, q) ↦
              let made : Path (Result E (List TlsOpt)) (failed x) (failed e) =
                rw (named_policy, p, q) at h in
              let same : x ≡ e = cc in bad_cipher v named p (q ∙ ap failed same)
          | inr (ids, q) ↦ let bad = rw (named_policy, p, q) at h in cc
        ]
      ]

  policy_for-Unpoliceable :
      (version : Text) (ciphers : List Text) (e : E)
      → policy_for names version ciphers ≡ failed e
      → Unpoliceable names version ciphers e
  unfolding policy_for
  policy_for-Unpoliceable [] [] e h = absurd (cc h)
  policy_for-Unpoliceable [] (c ∷ ciphers) e h =
      named_policy-Unpoliceable [] (c ∷ ciphers) e (inr (λ q. cc q)) h
  policy_for-Unpoliceable (n ∷ version) ciphers e h =
      named_policy-Unpoliceable (n ∷ version) ciphers e (inl (λ q. cc q)) h

  pub build_secure_metrics_tls_opts-Unpoliceable :
      (conf : TlsConfig) (e : E)
      → build_secure_metrics_tls_opts names conf ≡ failed e
      → Unpoliceable names
          (trim is_space conf.min_tls_version)
          (split_non_empty_csv conf.cipher_suites)
          e
  unfolding build_secure_metrics_tls_opts
  build_secure_metrics_tls_opts-Unpoliceable conf e h =
      elim (Result-cases (metrics_tls_policy_opts names conf.min_tls_version conf.cipher_suites)) [
        | inl (x, p) ↦
            let made : Path (Result E (List TlsOpt)) (failed x) (failed e) =
              rw (build_secure_metrics_tls_opts, p) at h in
            let same : x ≡ e = cc in
            policy_for-Unpoliceable _ _ e (unfold metrics_tls_policy_opts in p ∙ ap failed same)
        | inr (policy, p) ↦ let bad = rw (build_secure_metrics_tls_opts, p) at h in cc
      ]

  policy_for-Policed :
      (version : Text) (ciphers : List Text) (opts : List TlsOpt) (before : CryptoConfig)
      → policy_for names version ciphers ≡ ok opts
      → Policed names version ciphers before (apply_opts opts before)
  unfolding policy_for
  policy_for-Policed [] [] opts before h =
      let same : [] ≡ opts = cc in rw (sym same) (unpoliced refl refl (unfold apply_opts in refl))
  policy_for-Policed [] (c ∷ ciphers) opts before h =
      named_policy-Policed [] (c ∷ ciphers) opts before h
  policy_for-Policed (n ∷ version) ciphers opts before h =
      named_policy-Policed (n ∷ version) ciphers opts before h

  with_client_auth-auth_of :
      (want : Bool) (cfg : CryptoConfig)
      → with_client_auth want cfg ≡ record cfg { client_auth = auth_of want }
  unfolding with_client_auth
  with_client_auth-auth_of false cfg = refl
  with_client_auth-auth_of true cfg = refl

  pub build_secure_metrics_tls_opts-IsSecured :
      (conf : TlsConfig) (opts : List TlsOpt) (before : CryptoConfig)
      → build_secure_metrics_tls_opts names conf ≡ ok opts
      → IsSecured names conf before (apply_opts opts before)
  unfolding build_secure_metrics_tls_opts apply_opts
  build_secure_metrics_tls_opts-IsSecured conf opts before h =
      elim (Result-cases (metrics_tls_policy_opts names conf.min_tls_version conf.cipher_suites)) [
        | inl (e, p) ↦ let bad = rw (build_secure_metrics_tls_opts, p) at h in cc
        | inr (policy, p) ↦
            let made : Path (Result E (List TlsOpt))
                (ok (with_http11 ∷ (policy ++ with_client_auth conf.want_cli_auth ∷ [])))
                (ok opts) =
              rw (build_secure_metrics_tls_opts, p) at h in
            let same : (with_http11 ∷ (policy ++ with_client_auth conf.want_cli_auth ∷ [])) ≡ opts =
              cc in
            rw (sym same) (record {
              policed = apply_opts policy (with_http11 before);
              is_policed =
                  unfold with_http11 metrics_tls_policy_opts in
                  policy_for-Policed _ _ policy (with_http11 before) p;
              is_final =
                  apply_opts-append policy (with_client_auth conf.want_cli_auth ∷ [])
                    (with_http11 before)
                  ∙ with_client_auth-auth_of conf.want_cli_auth _;
            })
      ]
