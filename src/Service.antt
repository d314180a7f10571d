-- ===== src/Service.antt =====
-- service.go: the systemd unit that runs the server, and the settings that are read back from it.
-- `strings.EqualFold` rests on Unicode tables and is an argument. Calls of systemctl are not
-- modelled: what a verb does with their errors is.
pub mod Words
pub mod Repair
pub mod Adopt
use npvtunnel_creator_server.Base.{
  Bool, true, false, not, ◌&&◌, ◌||◌, List, [], ◌∷◌, ◌++◌, Option, none, some, Text, text,
  if◌then◌else◌, str_eq,
}
use npvtunnel_creator_server.Base.Strings.{
  fields, trim_space, after_prefix, trim_prefix, before_last, cut, split_lines, unwords,
}

pub data TlsMode : Type 0 where
  builtin proxy : TlsMode

unfoldable pub parse_tls_mode : (Text → Text → Bool) → Text → TlsMode
parse_tls_mode equal_fold s =
    if equal_fold (trim_space s) (text "proxy") then TlsMode.proxy else TlsMode.builtin

pub record DeployOpts : Type 0 where
  pub bin_path : Text
  pub state_dir : Text
  pub mode : TlsMode
  pub domain : Text
  pub acme_email : Text
  pub addr : Text

abbrev pub default_bin_path : Text
default_bin_path = text "/usr/local/bin/creator-server"

abbrev pub default_console_state_dir : Text
default_console_state_dir = text "/var/lib/creator-server"

abbrev pub default_proxy_addr : Text
default_proxy_addr = text "127.0.0.1:8443"

abbrev pub is_proxy : TlsMode → Bool
is_proxy builtin = false
is_proxy proxy = true

abbrev pub if_empty : Text → Text → Text
if_empty s default = if str_eq s [] then default else s

unfoldable pub with_defaults : DeployOpts → DeployOpts
with_defaults o = record o {
  bin_path = if_empty o.bin_path default_bin_path;
  state_dir = if_empty o.state_dir default_console_state_dir;
  addr = if is_proxy o.mode && str_eq o.addr [] then default_proxy_addr else o.addr;
}

unfoldable pub public_url : DeployOpts → Text
public_url o = if str_eq o.domain [] then [] else text "https://" ++ o.domain

unfoldable pub issuer_url : DeployOpts → Text
issuer_url o = if str_eq o.domain [] then [] else public_url o ++ text "/v1/issue"

unfoldable pub redeem_url : DeployOpts → Text
redeem_url o = if str_eq o.domain [] then [] else public_url o ++ text "/v1/redeem"

-- The command of options that have their defaults.
unfoldable pub command : TlsMode → DeployOpts → Text
command proxy o =
    o.bin_path
    ++ text " -addr "
    ++ o.addr
    ++ text " -state-dir "
    ++ o.state_dir
    ++ text " -public-issuer-url "
    ++ issuer_url o
command builtin o =
    let line = o.bin_path ++ text " -state-dir " ++ o.state_dir ++ text " -domain " ++ o.domain in
    if not (str_eq o.acme_email []) then line ++ text " -acme-email " ++ o.acme_email else line

unfoldable pub exec_start_line : DeployOpts → Text
exec_start_line o = let o = with_defaults o in command o.mode o

abbrev pub capability : TlsMode → Text
capability builtin = text "CAP_NET_BIND_SERVICE"
capability proxy = []

-- The template up to the command, and from the command on.
abbrev pub unit_head : Text
unit_head =
    text "[Unit]\nDescription=NpvTunnel creator-server (issuer + share-link redemption)\n"
    ++ text "After=network-online.target\nWants=network-online.target\n\n[Service]\nType=simple\n"
    ++ text "User=creator\nGroup=creator\n"

abbrev pub unit_tail : Text → Text → Text
unit_tail state_dir capabilities =
    text "Restart=on-failure\nRestartSec=2\n\n# Hardening "
    ++ (0xE2 ∷ 0x80 ∷ 0x94 ∷ text " the process only needs to read/write its state dir.\n")
    ++ text "NoNewPrivileges=true\nProtectSystem=strict\nProtectHome=true\nPrivateTmp=true\n"
    ++ text "PrivateDevices=true\nProtectKernelTunables=true\nProtectControlGroups=true\n"
    ++ text "RestrictAddressFamilies=AF_INET AF_INET6\nReadWritePaths="
    ++ state_dir
    ++ text "\nCapabilityBoundingSet="
    ++ capabilities
    ++ text "\nAmbientCapabilities="
    ++ capabilities
    ++ text "\n\n[Install]\nWantedBy=multi-user.target\n"

unfoldable pub render_unit_file_with_exec_start : DeployOpts → Text → Text
render_unit_file_with_exec_start o exec_start =
    let o = with_defaults o in
    unit_head
    ++ (text "ExecStart=" ++ exec_start ++ (b'\n' ∷ unit_tail o.state_dir (capability o.mode)))

unfoldable pub render_unit_file : DeployOpts → Text
render_unit_file o =
    let o = with_defaults o in render_unit_file_with_exec_start o (exec_start_line o)

-- The command with the lines that its trailing backslashes join to it.
abbrev unless_joined : Text → (Text → Text) → Option Text → Text
unless_joined cmd join none = cmd
unless_joined cmd join (some front) = join front

unfoldable pub continued : Text → List Text → Text
continued cmd [] = unless_joined cmd (λ front. front) (before_last b'\\' (trim_space cmd))
continued cmd (line ∷ lines) =
    unless_joined cmd (λ front. continued (front ++ (32 ∷ trim_space line)) lines)
      (before_last b'\\' (trim_space cmd))

abbrev command_of : List Text → Text → Option Text → Text
command_of lines further none = further
command_of lines further (some cmd) = unwords (fields (continued cmd lines))

unfoldable pub find_exec_start : List Text → Text
find_exec_start [] = []
find_exec_start (line ∷ lines) =
    command_of lines (find_exec_start lines) (after_prefix (text "ExecStart=") (trim_space line))

unfoldable pub extract_exec_start_line : Text → Text
extract_exec_start_line unit_text = find_exec_start (split_lines unit_text)

abbrev pieces : Text → Option (Text × Text) → List Text → List Text
pieces tok none rest = tok ∷ rest
pieces tok (some (k, v)) rest = k ∷ v ∷ rest

-- `strings.HasPrefix(tok, "-")`
abbrev pub is_flag : Text → Bool
is_flag [] = false
is_flag (c ∷ cs) = str_eq (c ∷ []) (text "-")

unfoldable pub normalize_flag_tokens : List Text → List Text
normalize_flag_tokens [] = []
normalize_flag_tokens (tok ∷ toks) =
    if is_flag tok
    then pieces tok (cut b'=' tok) (normalize_flag_tokens toks)
    else tok ∷ normalize_flag_tokens toks

abbrev host_part : Text → Option (Text × Text) → Text
host_part u none = u
host_part u (some (host, path)) = host

unfoldable pub domain_from_url : Text → Text
domain_from_url u =
    let u = trim_prefix (text "https://") u in
    let u = trim_prefix (text "http://") u in host_part u (cut b'/' u)

pub data FlagName : Type 0 where
  domain acme_email state_dir addr public_issuer_url other : FlagName

-- `case "-name", "--name"`
abbrev spells : Text → Text → Bool
spells name tok = str_eq tok (b'-' ∷ name) || str_eq tok (b'-' ∷ b'-' ∷ name)

unfoldable pub flag_name : Text → FlagName
flag_name tok =
    if spells (text "domain") tok
    then FlagName.domain
    else if spells (text "acme-email") tok
    then FlagName.acme_email
    else if spells (text "state-dir") tok
    then FlagName.state_dir
    else if spells (text "addr") tok
    then FlagName.addr
    else if spells (text "public-issuer-url") tok
    then public_issuer_url
    else other

-- The options and `sawDomain`, after a flag and its value.
abbrev set_flag : FlagName → Text → DeployOpts × Bool → DeployOpts × Bool
set_flag domain v (o, saw) = (record o { domain = v }, true)
set_flag acme_email v (o, saw) = (record o { acme_email = v }, saw)
set_flag state_dir v (o, saw) = (record o { state_dir = v }, saw)
set_flag addr v (o, saw) = (record o { addr = v }, saw)
set_flag public_issuer_url v (o, saw) =
    (if str_eq o.domain [] then record o { domain = domain_from_url v } else o, saw)
set_flag other v (o, saw) = (o, saw)

abbrev takes_value : FlagName → Bool
takes_value other = false
takes_value _ = true

-- A flag at the end has the value "".
unfoldable pub read_flags : List Text → DeployOpts × Bool → DeployOpts × Bool
read_flags [] st = st
read_flags (tok ∷ []) st = set_flag (flag_name tok) [] st
read_flags (tok ∷ v ∷ toks) st =
    let after_value = read_flags toks (set_flag (flag_name tok) v st) in
    let after_tok = read_flags (v ∷ toks) st in
    if takes_value (flag_name tok) then after_value else after_tok

abbrev no_opts : DeployOpts
no_opts = record {
  bin_path = [];
  state_dir = [];
  mode = TlsMode.builtin;
  domain = [];
  acme_email = [];
  addr = [];
}

abbrev with_mode : DeployOpts × Bool → DeployOpts
with_mode (o, saw) = record o { mode = if saw then TlsMode.builtin else TlsMode.proxy }

abbrev pub read_command : List Text → DeployOpts
read_command [] = with_mode (no_opts, false)
read_command (bin ∷ toks) = with_mode (read_flags toks (record no_opts { bin_path = bin }, false))

unfoldable pub parse_exec_start : Text → DeployOpts
parse_exec_start exec_start =
    with_defaults (read_command (normalize_flag_tokens (fields exec_start)))

-- What `os.ReadFile` gives is an argument.
abbrev adopted : Text → Option DeployOpts
adopted line = if str_eq line [] then none else some (parse_exec_start line)

unfoldable pub adopt_from_unit : Option Text → Option DeployOpts
adopt_from_unit none = none
adopt_from_unit (some unit_text) = adopted (extract_exec_start_line unit_text)

-- The unit that `repairServiceUnit` installs; none if it cannot read one or finds no command.
unfoldable pub repair_service_unit : Option Text → Option Text
repair_service_unit none = none
repair_service_unit (some unit_text) =
    let exec_start = extract_exec_start_line unit_text in
    if str_eq exec_start []
    then none
    else some (render_unit_file_with_exec_start (parse_exec_start exec_start) exec_start)
