-- ===== src/Execution/Client/Connect.antt =====
-- crates/execution/src/client.rs: `ExecutionClient::new`, which reads the secret of the tokens.
use Prim.Native.String.{◌++◌}
use rkb.Prelude.{ℕ, if◌then◌else◌, String, Result, ok, err}
use rkb.Prelude.Text.{is_empty, trim}
use rkb.Types.Config.{ExecutionConfig}
use rkb.Execution.Error.{ExecutionError, connection_failed}
use rkb.Execution.Jwt.{TokenHost, TokenError, invalid_hex, secret_length, trim_0x, build_token}
use rkb.Execution.Engine.{Engine}
use rkb.Execution.Client.{ExecutionClient, new as new_client}

-- `to_string` writes a number in digits.
module _ (H : TokenHost) (read_to_string : String → Result String String)
    (to_string : ℕ → String) where
  abbrev describe : TokenError → String
  describe (invalid_hex e) = "invalid hex: " ++ e
  describe (secret_length n) = "JWT secret must be 32 bytes, got " ++ to_string n

  abbrev pub jwt_secret_of : String → String
  jwt_secret_of contents = trim_0x (trim contents)

  -- The secret is tried on a token.
  unfoldable pub checked_secret : String → Result ExecutionError String
  checked_secret jwt_secret = elim (build_token H jwt_secret) [
    | ok token ↦ ok jwt_secret
    | err e ↦ err (connection_failed ("invalid JWT secret: " ++ describe e))
  ]

  -- The URL and the secret of the client, or why there is none.
  unfoldable pub load_secret : ExecutionConfig → Result ExecutionError String
  unfolding checked_secret
  load_secret config =
      if is_empty config.reth_url
      then err (connection_failed "reth_url cannot be empty")
      else elim (read_to_string config.jwt_secret_path) [
        | err e ↦ err (connection_failed ("failed to read JWT secret: " ++ e))
        | ok contents ↦ checked_secret (jwt_secret_of contents)
      ]

  unfoldable pub new :
      {E : Engine} → ExecutionConfig → E.World → Result ExecutionError (ExecutionClient E)
  unfolding load_secret new_client
  new config w = elim (load_secret config) [ ok jwt_secret ↦ ok (new_client w) | err e ↦ err e ]
