-- ===== src/Celestia/Client/Connect.antt =====
-- crates/celestia/src/client.rs: how a client is made from the configuration.
pub mod Laws
use Prim.Native.String.{◌++◌}
use rkb.Prelude.{
  ℕ, if◌then◌else◌, ◌||◌, Bool, true, false, String, [], Option, none, some, Result, ok, err,
  map_err,
}
use rkb.Prelude.Text.{is_empty, trim, starts_with}
use rkb.Types.Primitives.{Bytes}
use rkb.Types.Config.{CelestiaConfig}
use rkb.Celestia.Error.{CelestiaError, invalid_config, connection_failed}
use rkb.Celestia.Finality
use rkb.Celestia.Client.{DataLayer, CelestiaClient}

-- `Namespace::new_v0` numbers a namespace.
abbrev pub Namespace : Type 0
Namespace = ℕ

-- What `ClientBuilder` is given before `build`.
pub record ClientBuilder : Type 0 where
  pub rpc_url : String
  pub grpc_url : String
  pub private_key_hex : String
  pub rpc_auth_token : Option String
  pub grpc_metadata : Option (String × String)

-- The code outside the crate: hexadecimal digits, namespaces, files, and the two clients.
pub record Connector (D : DataLayer) : Type 0 where
  pub hex_decode : String → Result String Bytes
  pub new_v0 : Bytes → Result String Namespace
  pub exists : String → Bool
  pub read_to_string : String → Result String String
  pub build : ClientBuilder → D.World → Result String (Unit {0}) × D.World
  pub rpc_new : String → Option String → D.World → Result String (Unit {0}) × D.World

unfoldable pub validate_config : CelestiaConfig → Result CelestiaError (Unit {0})
validate_config config =
    if is_empty config.bridge_addr
    then err (invalid_config "bridge_addr cannot be empty")
    else if is_empty config.core_grpc_addr
    then err (invalid_config "core_grpc_addr cannot be empty")
    else ok tt

abbrev pub has_scheme : String → Bool
has_scheme addr = starts_with "http://" addr || starts_with "https://" addr

unfoldable pub build_grpc_url : String → Bool → String
build_grpc_url addr tls_enabled =
    if has_scheme addr then addr else if tls_enabled then "https://" ++ addr else "http://" ++ addr

-- A token that may be left empty.
abbrev non_empty : String → Option String
non_empty token = if is_empty token then none else some token

module _ {D : DataLayer} (C : Connector D) where
  unfoldable pub parse_namespace : String → Result CelestiaError Namespace
  parse_namespace namespace_hex = elim (C.hex_decode namespace_hex) [
    | err e ↦ err (invalid_config ("invalid namespace hex: " ++ e))
    | ok bytes ↦ map_err (λ e. invalid_config ("invalid namespace: " ++ e)) (C.new_v0 bytes)
  ]

  unfoldable pub load_private_key : String → Result CelestiaError String
  load_private_key path =
      if C.exists path
      then elim (C.read_to_string path) [
        | err e ↦ err (invalid_config ("failed to read celestia key: " ++ e))
        | ok key ↦ ok (trim key)
      ]
      else err (invalid_config ("celestia key not found at " ++ path))

  unfoldable pub build_lumina_client :
      CelestiaConfig → String → String → D.World → Result CelestiaError (Unit {0}) × D.World
  build_lumina_client config grpc_url private_key_hex w =
      let token = config.core_grpc_auth_token in
      let builder : ClientBuilder = record {
        rpc_url = config.bridge_addr;
        grpc_url = grpc_url;
        private_key_hex = private_key_hex;
        rpc_auth_token = non_empty config.bridge_auth_token;
        grpc_metadata = if is_empty token then none else some ("authorization", token);
      } in
      let (r, w') = C.build builder w in
      (map_err (λ e. connection_failed ("lumina client: " ++ e)) r, w')

  unfoldable pub build_rpc_client :
      CelestiaConfig → D.World → Result CelestiaError (Unit {0}) × D.World
  build_rpc_client config w =
      let (r, w') = C.rpc_new config.bridge_addr (non_empty config.bridge_auth_token) w in
      (map_err (λ e. connection_failed ("rpc client: " ++ e)) r, w')

  -- The tests before a connection is opened: the key, if the configuration passes them.
  unfoldable pub check_settings : CelestiaConfig → Result CelestiaError String
  unfolding validate_config parse_namespace load_private_key
  check_settings config = elim (validate_config config) [
    | err e ↦ err e
    | ok _ ↦ elim (parse_namespace config.namespace) [
      | err e ↦ err e
      | ok namespace ↦ load_private_key config.celestia_key_path
    ]
  ]

  -- The two clients, one after the other.
  unfoldable pub connect :
      CelestiaConfig → String → D.World → Result CelestiaError (Unit {0}) × D.World
  unfolding build_lumina_client build_rpc_client build_grpc_url
  connect config private_key_hex w =
      let grpc_url = build_grpc_url config.core_grpc_addr config.core_grpc_tls_enabled in
      let (r, w') = build_lumina_client config grpc_url private_key_hex w in
      elim r [ err e ↦ (err e, w') | ok _ ↦ build_rpc_client config w' ]

  unfoldable pub new : CelestiaConfig → D.World → Result CelestiaError (CelestiaClient D) × D.World
  unfolding check_settings connect Finality.new
  new config w = elim (check_settings config) [
    | err e ↦ (err e, w)
    | ok private_key_hex ↦
        let (r, w') = connect config private_key_hex w in
        elim r [
          | err e ↦ (err e, w')
          | ok _ ↦ (
            ok (record {
              world = w';
              finality_tracker = Finality.new;
              finality_tx = [];
              finality_broadcast = [];
            }),
            w',
          )
        ]
  ]
