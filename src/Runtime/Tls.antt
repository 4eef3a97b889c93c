-- ===== src/Runtime/Tls.antt =====
-- src/runtime.rs, `load_tls_config`: the TLS configuration of the listeners. A certificate and a key
-- are what the crate `rustls_pemfile` reads of a PEM file.
pub mod Laws
use command_api.Prelude.{
  Text, bytes, Bool, true, false, not, ◌≡◌, refl, sym, ap, ◌∙◌, Option, none, some, List, [], ◌∷◌,
  ◌++◌, map, Result, ok, err, ◌>>=◌, ◌>>◌, >>=-eq-ok, bail_if, bail_if-eq-ok, ok_or, ok_or-eq-ok,
  is_empty, if◌then◌else◌, Bool-cases, inl, inr, arith,
}
use command_api.Config.Resolve.{ResolvedTlsConfig}

pub data TlsError : Type 0 where
  no_certificate_file bad_certificate no_certificate no_key_file bad_key no_key : TlsError
  no_ca_file bad_ca root_refused no_ca no_verifier not_matching : TlsError

-- Files, and what the crates `rustls_pemfile` and `rustls` make of them.
pub record Pem (Cert Key : Type 0) : Type 0 where
  pub open_file : Text → Option Text
  pub certs : Text → List (Option Cert)
  pub private_key : Text → Option (Option Key)
  pub add : Cert → Bool
  pub build_verifier : List Cert → Bool
  pub matches : List Cert → Key → Bool

pub record TlsServer (Cert Key : Type 0) : Type 0 where
  pub certificates : List Cert
  pub private_key : Key
  pub client_roots : List Cert
  pub alpn_protocols : List Text

-- `collect::<Result<Vec<_>>>()`
unfoldable pub collect_certs : {Cert : Type 0} → List (Option Cert) → Result TlsError (List Cert)
collect_certs [] = ok []
collect_certs (c ∷ cs) = do
  certificate ← ok_or c bad_certificate
  rest ← collect_certs cs
  ok (certificate ∷ rest)

module _ {Cert Key : Type 0} where
  -- The loop over the certificates of the client CA.
  unfoldable pub add_roots :
      Pem Cert Key → (client_roots : List Cert) → List (Option Cert) → Result TlsError (List Cert)
  add_roots p client_roots [] = ok client_roots
  add_roots p client_roots (c ∷ cs) = do
    certificate ← ok_or c bad_ca
    bail_if (not (p.add certificate)) root_refused
    add_roots p (client_roots ++ certificate ∷ []) cs

  unfoldable pub load_tls_config :
      Pem Cert Key → ResolvedTlsConfig → Result TlsError (TlsServer Cert Key)
  unfolding collect_certs add_roots
  load_tls_config p config = do
    certificate_file ← ok_or (p.open_file config.certificate) no_certificate_file
    certificates ← collect_certs (p.certs certificate_file)
    bail_if (is_empty certificates) no_certificate
    key_file ← ok_or (p.open_file config.private_key) no_key_file
    found_key ← ok_or (p.private_key key_file) bad_key
    private_key ← ok_or found_key no_key
    ca_file ← ok_or (p.open_file config.client_ca_certificate) no_ca_file
    client_roots ← add_roots p [] (p.certs ca_file)
    bail_if (is_empty client_roots) no_ca
    bail_if (not (p.build_verifier client_roots)) no_verifier
    bail_if (not (p.matches certificates private_key)) not_matching
    ok (record {
      certificates = certificates;
      private_key = private_key;
      client_roots = client_roots;
      alpn_protocols = bytes "h2" ∷ bytes "http/1.1" ∷ [];
    })
