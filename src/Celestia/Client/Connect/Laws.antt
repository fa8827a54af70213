-- ===== src/Celestia/Client/Connect/Laws.antt =====
-- crates/celestia/src/client.rs: which connections are opened.
use Prim.Native.String.{◌++◌}
use Prim.Native.String.append
use rkb.Prelude.{
  ◌≡◌, refl, ap, ◌∙◌, if◌then◌else◌, Bool, true, false, String, arith, Bool-cases, inl, inr,
}
use rkb.Prelude.Text.{starts_with}
use rkb.Celestia.Client.Connect.{has_scheme, build_grpc_url}

starts_with-append : (prefix s : String) → starts_with prefix (prefix ++ s) ≡ true
starts_with-append Prim.Native.String.[] s = refl
starts_with-append (Prim.Native.String.◌∷◌ c prefix) s =
    ap (starts_with (Prim.Native.String.◌∷◌ c prefix)) (λ i. append.cons c prefix s i)
    ∙ ground (arith, starts_with-append prefix s)

prefixed :
    (tls : Bool) (addr : String)
    → has_scheme (if tls then "https://" ++ addr else "http://" ++ addr) ≡ true
prefixed true addr = ground (arith, starts_with-append "https://" addr)
prefixed false addr = ground (arith, starts_with-append "http://" addr)

with_scheme : (addr : String) (tls : Bool) → has_scheme (build_grpc_url addr tls) ≡ true
unfolding build_grpc_url
with_scheme addr tls = elim (Bool-cases (has_scheme addr)) [
  | inl there ↦ rw (build_grpc_url, there) there
  | inr missing ↦ rw (build_grpc_url, missing) (prefixed tls addr)
]

-- The URL of the gRPC endpoint has a scheme, which is that of the address if it has one; an address
-- that is such a URL already is taken as it is, whatever is said of TLS.
pub build_grpc_url-has_scheme :
    (addr : String) (tls tls' : Bool)
    → (has_scheme (build_grpc_url addr tls) ≡ true)
      × (build_grpc_url (build_grpc_url addr tls) tls' ≡ build_grpc_url addr tls)
unfolding build_grpc_url
build_grpc_url-has_scheme addr tls tls' =
    let h = with_scheme addr tls in (h, rw (build_grpc_url, h) refl)
