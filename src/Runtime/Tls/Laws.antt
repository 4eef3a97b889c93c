-- ===== src/Runtime/Tls/Laws.antt =====
-- src/runtime.rs, `load_tls_config`: what the listeners ask of their clients.
use mathlib.Core.List.{append_assoc, append-nil}
use command_api.Prelude.{
  Text, bytes, true, false, not, ◌≡◌, refl, sym, ap, ◌∙◌, Option, some, List, [], ◌∷◌, ◌++◌, map,
  ok, >>=-eq-ok, bail_if, bail_if-eq-ok, bail_if-not, ok_or, ok_or-eq-ok, eq_of_ok, subst, is_empty,
  All,
}
use command_api.Config.Resolve.{ResolvedTlsConfig}
use command_api.Runtime.Tls.{
  no_certificate_file, bad_certificate, no_certificate, no_key_file, bad_key, no_key, no_ca_file,
  bad_ca, root_refused, no_ca, no_verifier, not_matching, Pem, TlsServer, collect_certs, add_roots,
  load_tls_config,
}

collect_certs-map :
    {Cert : Type 0} (cs : List (Option Cert)) (certificates : List Cert)
    → collect_certs cs ≡ ok certificates
    → cs ≡ map some certificates
unfolding collect_certs
collect_certs-map [] certificates e = let same : [] ≡ certificates = cc in rw (← same) refl
collect_certs-map (c ∷ cs) certificates e =
    let (certificate, a, e1) = >>=-eq-ok (ok_or c bad_certificate) _ e in
    let (rest, b, e2) = >>=-eq-ok (collect_certs cs) _ e1 in
    let same : certificate ∷ rest ≡ certificates = cc in
    rw (← same, ok_or-eq-ok c bad_certificate a, collect_certs-map cs rest b) refl

module _ {Cert Key : Type 0} where
  -- What the loop has added.
  record IsAdded (p : Pem Cert Key) (cs : List (Option Cert)) (new : List Cert) : Type 0 where
    pub all : cs ≡ map some new
    pub accepted : All (λ c. p.add c ≡ true) new

  add_roots-IsAdded :
      (p : Pem Cert Key) (client_roots : List Cert) (cs : List (Option Cert)) (left : List Cert)
      → add_roots p client_roots cs ≡ ok left
      → (new : List Cert) × (client_roots ++ new ≡ left) × IsAdded p cs new
  unfolding add_roots
  add_roots-IsAdded p client_roots [] left e =
      ([], append-nil client_roots ∙ cc, record { all = refl; accepted = tt })
  add_roots-IsAdded p client_roots (c ∷ cs) left e =
      let (certificate, a, e1) = >>=-eq-ok (ok_or c bad_ca) _ e in
      let (u, b, e2) = >>=-eq-ok (bail_if (not (p.add certificate)) root_refused) _ e1 in
      let (new, same, added) = add_roots-IsAdded p (client_roots ++ certificate ∷ []) cs left e2 in
      (
        certificate ∷ new,
        sym (append_assoc client_roots (certificate ∷ []) new) ∙ same,
        record {
          all = rw (ok_or-eq-ok c bad_ca a, added.all) refl;
          accepted = (bail_if-not _ _ b, added.accepted);
        },
      )

  -- A TLS configuration is that of its files.
  pub record IsLoaded (p : Pem Cert Key) (config : ResolvedTlsConfig) (t : TlsServer Cert Key)
      : Type 0 where
    pub certificates :
        (file : Text) × (p.open_file config.certificate ≡ some file)
        × (p.certs file ≡ map some t.certificates)
    pub some_certificate : is_empty t.certificates ≡ false
    pub key :
        (file : Text) × (p.open_file config.private_key ≡ some file)
        × (p.private_key file ≡ some (some t.private_key))
    pub matching : p.matches t.certificates t.private_key ≡ true
    pub client_roots :
        (file : Text) × (p.open_file config.client_ca_certificate ≡ some file)
        × (p.certs file ≡ map some t.client_roots)
    pub some_root : is_empty t.client_roots ≡ false
    pub accepted : All (λ c. p.add c ≡ true) t.client_roots
    pub verified : p.build_verifier t.client_roots ≡ true

  -- A TLS configuration that loads has at least one certificate, all those of its file, and the key
  -- that goes with them, and it asks clients for a certificate by at least one root: the roots are
  -- all the certificates of the client CA's file, in its order, each of them accepted.
  pub load_tls_config-IsLoaded :
      (p : Pem Cert Key) (config : ResolvedTlsConfig) (t : TlsServer Cert Key)
      → load_tls_config p config ≡ ok t
      → IsLoaded p config t
  unfolding load_tls_config
  load_tls_config-IsLoaded p config t e =
      let (f1, a1, e1) =
        >>=-eq-ok (ok_or (p.open_file config.certificate) no_certificate_file) _ e in
      let (certificates, a2, e2) = >>=-eq-ok (collect_certs (p.certs f1)) _ e1 in
      let (u3, a3, e3) = >>=-eq-ok (bail_if (is_empty certificates) no_certificate) _ e2 in
      let (f4, a4, e4) = >>=-eq-ok (ok_or (p.open_file config.private_key) no_key_file) _ e3 in
      let (found, a5, e5) = >>=-eq-ok (ok_or (p.private_key f4) bad_key) _ e4 in
      let (key, a6, e6) = >>=-eq-ok (ok_or found no_key) _ e5 in
      let (f7, a7, e7) =
        >>=-eq-ok (ok_or (p.open_file config.client_ca_certificate) no_ca_file) _ e6 in
      let (roots, a8, e8) = >>=-eq-ok (add_roots p [] (p.certs f7)) _ e7 in
      let (u9, a9, e9) = >>=-eq-ok (bail_if (is_empty roots) no_ca) _ e8 in
      let (u10, a10, e10) = >>=-eq-ok (bail_if (not (p.build_verifier roots)) no_verifier) _ e9 in
      let (u11, a11, e11) =
        >>=-eq-ok (bail_if (not (p.matches certificates key)) not_matching) _ e10 in
      let (new, all_new, new_added) = add_roots-IsAdded p [] (p.certs f7) roots a8 in
      let added : IsAdded p (p.certs f7) roots = subst (IsAdded p (p.certs f7)) all_new new_added in
      let same : record {
        certificates = certificates;
        private_key = key;
        client_roots = roots;
        alpn_protocols = bytes "h2" ∷ bytes "http/1.1" ∷ [];
      }
          ≡ t =
        eq_of_ok e11 in
      subst (IsLoaded p config) same (record {
        certificates = (f1, ok_or-eq-ok _ _ a1, collect_certs-map (p.certs f1) certificates a2);
        some_certificate = bail_if-eq-ok _ _ a3;
        key = (f4, ok_or-eq-ok _ _ a4, ok_or-eq-ok _ _ a5 ∙ ap some (ok_or-eq-ok _ _ a6));
        matching = bail_if-not _ _ a11;
        client_roots = (f7, ok_or-eq-ok _ _ a7, added.all);
        some_root = bail_if-eq-ok _ _ a9;
        accepted = added.accepted;
        verified = bail_if-not _ _ a10;
      })
