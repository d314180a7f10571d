-- ===== src/Tests/Units.antt =====
-- Runs of service.go on one deployment.
use npvtunnel_creator_server.Base.{◌≡◌, refl, [], ◌∷◌, ◌++◌, some, Text, text, All, arith, str_eq}
use npvtunnel_creator_server.Base.Strings.{
  space_len, fields_from, fields, trim_left, trim_right, trim_space, after_prefix, before_last,
  split_lines, unwords, cut,
}
use npvtunnel_creator_server.Service.{
  TlsMode, DeployOpts, with_defaults, public_url, issuer_url, command, exec_start_line,
  render_unit_file, continued, find_exec_start, extract_exec_start_line, adopt_from_unit,
  repair_service_unit, normalize_flag_tokens, flag_name, read_flags, parse_exec_start,
}
use npvtunnel_creator_server.Service.Words.{Word}
use npvtunnel_creator_server.Service.Repair.{repair_keeps}
use npvtunnel_creator_server.Service.Adopt.{IsUsable, kept, adopt-render}

abbrev deployed : DeployOpts
deployed = record {
  bin_path = [];
  state_dir = text "/srv/creator";
  mode = TlsMode.proxy;
  domain = text "issuer.example";
  acme_email = text "me@example";
  addr = [];
}

proxy_command :
    exec_start_line deployed
    ≡ text "/usr/local/bin/creator-server -addr 127.0.0.1:8443 -state-dir /srv/creator "
      ++ text "-public-issuer-url https://issuer.example/v1/issue"
unfolding exec_start_line with_defaults command issuer_url public_url str_eq
proxy_command = refl

-- A continuation line, a flag with `=`, an unknown flag and a flag of two dashes.
written_by_hand :
    adopt_from_unit (some (text "[Service]\n ExecStart=/bin/cs -v \\\n  --domain=a.b -addr x:1\n"))
    ≡ some (record {
      bin_path = text "/bin/cs";
      state_dir = text "/var/lib/creator-server";
      mode = TlsMode.builtin;
      domain = text "a.b";
      acme_email = [];
      addr = text "x:1";
    })
unfolding adopt_from_unit extract_exec_start_line find_exec_start continued parse_exec_start
    normalize_flag_tokens read_flags flag_name with_defaults split_lines fields fields_from unwords
    trim_space trim_left trim_right space_len after_prefix before_last cut str_eq
written_by_hand = refl

usable : IsUsable (with_defaults deployed)
unfolding with_defaults str_eq
usable = record {
  bin_path = (((λ e. cc), omega arith), refl);
  state_dir = (((λ e. cc), omega arith), refl);
  domain = (((λ e. cc), omega arith), refl);
  mode = ((((λ e. cc), omega arith), refl), omega arith);
}

adopt-render_example :
    adopt_from_unit (some (render_unit_file deployed)) ≡ some (kept (with_defaults deployed))
adopt-render_example = adopt-render deployed usable

abbrev rooted : Text
rooted = text "[Service]\nUser=root\nExecStart=/bin/cs -domain a.b\n"

plain_words : All Word (text "/bin/cs" ∷ text "-domain" ∷ text "a.b" ∷ [])
plain_words = (((λ e. cc), omega arith), (((λ e. cc), omega arith), (((λ e. cc), omega arith), tt)))

rooted_command :
    extract_exec_start_line rooted ≡ unwords (text "/bin/cs" ∷ text "-domain" ∷ text "a.b" ∷ [])
unfolding extract_exec_start_line find_exec_start continued split_lines fields fields_from unwords
    trim_space trim_left trim_right space_len after_prefix before_last str_eq
rooted_command = refl

repair_keeps_example :
    (repaired : Text) × (repair_service_unit (some rooted) ≡ some repaired)
    × (extract_exec_start_line repaired ≡ extract_exec_start_line rooted)
    × (adopt_from_unit (some repaired) ≡ adopt_from_unit (some rooted))
    × (repair_service_unit (some repaired) ≡ some repaired)
repair_keeps_example =
    repair_keeps rooted (text "/bin/cs") (text "-domain" ∷ text "a.b" ∷ []) plain_words
      rooted_command
