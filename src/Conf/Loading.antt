-- ===== src/Conf/Loading.antt =====
-- `NewConfInstance` of internal/app/shared/config.go: the files, the environment and etcd, one over the
-- other. What they hold is the record `Sources`; the logs are left out.
use web3_rpc_proxy.Prelude.{
  ℕ, String, Bool, false, Option, none, some, List, [], ◌∷◌, ◌==◌, string_comparable, if◌then◌else◌,
}
use web3_rpc_proxy.Conf.{Koanf, read_or, load_endpoint_chains}

-- A file: whether it is there, and its document if it can be loaded.
pub record LocalFile (L : Type 0) : Type 0 where
  pub present : Bool
  pub document : Option L

-- What etcd gives for a key.
pub data EtcdReply : Type 0 where
  failed : EtcdReply
  values : List String → EtcdReply

pub record Sources (L V : Type 0) : Type 0 where
  pub default_file : LocalFile L
  pub local_file : LocalFile L
  pub environment : Option L
  -- No client of etcd, or what it gives.
  pub etcd : Option (String → EtcdReply)
  -- A document, and a list of any values, in YAML; the local file of the schema; bytes as a value.
  pub parse_document : String → Option L
  pub parse_list : String → Option V
  pub schema_file : Option String
  pub bytes : String → V

abbrev pub static_token : String
static_token = "etcd.setup.config.file"

abbrev pub endpoints_config_token : String
endpoints_config_token = "etcd.endpoints.config.file"

abbrev pub schema_token : String
schema_token = "etcd.jsonrpc.schema.file"

abbrev pub endpoints_token : String
endpoints_token = "endpoints"

-- The first value of a reply, if it has one.
abbrev pub first_value : EtcdReply → Option String
first_value failed = none
first_value (values []) = none
first_value (values (v ∷ vs)) = some v

-- A variable of the environment: the key without its prefix, in lower case and with dots, and the
-- value, which is split if there is a space in it.
pub record TextOps : Type 0 where
  pub trim_prefix : String → String → String
  pub to_lower : String → String
  pub replace_all : String → String → String → String
  pub contains : String → String → Bool
  pub split : String → String → List String

pub data EnvValue : Type 0 where
  one : String → EnvValue
  many : List String → EnvValue

unfoldable pub env_entry : TextOps → String → String → String × EnvValue
env_entry t s v = (
  t.replace_all (t.to_lower (t.trim_prefix s "WEB3RPCPROXY_")) "_" ".",
  if t.contains v " " then many (t.split v " ") else one v,
)

module _ {L V S : Type 0} (k : Koanf L V S) (src : Sources L V) where
  abbrev pub merge_some : Option L → S → S
  merge_some none s = s
  merge_some (some l) s = k.merge l s

  abbrev pub readable : LocalFile L → Option L
  readable f = if f.present then f.document else none

  -- The files and the environment.
  unfoldable pub load_local : S → S
  load_local s =
      merge_some src.environment
        (merge_some (readable src.local_file) (merge_some (readable src.default_file) s))

  abbrev pub set_schema : Option String → S → S
  set_schema none s = s
  set_schema (some b) s = k.set "jsonrpc.schema" (src.bytes b) s

  abbrev pub not_empty : Option String → Option String
  not_empty none = none
  not_empty (some b) = if b == "" then none else some b

  module _ (etcd : String → EtcdReply) where
    -- The document that etcd has under the configured key.
    unfoldable pub static_document : S → Option L
    static_document s =
        if k.exists static_token s
        then elim (first_value (etcd (k.string static_token s))) [
          | none ↦ none
          | some b ↦ src.parse_document b
        ]
        else none

    unfoldable pub load_static : S → S × String
    load_static s = elim (static_document s) [
      | none ↦ (s, "local")
      | some l ↦ (k.merge l s, "etcd")
    ]

    unfoldable pub load_endpoints : S → S
    load_endpoints s =
        if k.exists endpoints_config_token s
        then elim (first_value (etcd (k.string endpoints_config_token s))) [
          | none ↦ s
          | some b ↦ elim (src.parse_list b) [ none ↦ s | some v ↦ k.set endpoints_token v s ]
        ]
        else s

    unfoldable pub load_schema : S → S
    load_schema s =
        if read_or k k.bool "jsonrpc.enable_validation" (false ∷ []) s
        then if k.exists schema_token s
          then set_schema (not_empty (first_value (etcd (k.string schema_token s)))) s
          else set_schema src.schema_file s
        else s

  -- Everything before the deferred part: the configuration, and where it came from.
  unfoldable pub loaded : S → S × String
  unfolding load_local load_static load_endpoints load_schema
  loaded empty = elim src.etcd [
    | none ↦ (load_local empty, "local")
    | some etcd ↦
        let (s, source) = load_static etcd (load_local empty) in
        (load_schema etcd (load_endpoints etcd s), source)
  ]

  -- `NewConfInstance`; `none` is the panic of the deferred `LoadEndpointChains`.
  unfoldable pub new_conf_instance : (ℕ → String) → S → Option (S × String)
  new_conf_instance decimal empty =
      let (s, source) = loaded empty in
      elim (load_endpoint_chains k decimal endpoints_token s) [
        | none ↦ none
        | some t ↦ some (t, source)
      ]
