-- ===== src/Service/Adopt.antt =====
-- `execStartLine`, `parseExecStart` and `adoptFromUnit` of service.go: the options of a deployment,
-- written to a unit and read back.
use mathlib.Core.List.{append_assoc}
use npvtunnel_creator_server.Base.{
  ℕ, ◌≡◌, ◌≢◌, refl, ap, false, List, [], ◌∷◌, ◌++◌, none, some, Text, text, All, if◌then◌else◌,
  arith, str_eq, str_eq_iff, ◌⊎◌, inl, inr, Bool-cases,
}
use npvtunnel_creator_server.Base.Strings.{after_prefix, cut, unwords}
use npvtunnel_creator_server.Service.{
  TlsMode, builtin, proxy, DeployOpts, with_defaults, issuer_url, public_url, command,
  exec_start_line, render_unit_file, render_unit_file_with_exec_start, read_command, is_flag,
  normalize_flag_tokens, domain_from_url, flag_name, read_flags, parse_exec_start, adopt_from_unit,
  extract_exec_start_line,
}
use npvtunnel_creator_server.Service.Words.{
  Graphic, Word, fields-unwords, unwords-Ends, Ends-ne_nil,
}
use npvtunnel_creator_server.Service.Repair.{extract-render}

-- A word that is no flag.
abbrev pub Value : Text → Type 0
Value v = Word v × (is_flag v ≡ false)

abbrev pub NoSlash : Text → Type 0
NoSlash = All (λ c. c ≢ b'/')

-- Options that have their defaults, for each mode: what the command line holds are plain words.
abbrev ModeUsable : TlsMode → DeployOpts → Type 0
ModeUsable builtin o = (o.acme_email ≡ []) ⊎ Value o.acme_email
ModeUsable proxy o = Value o.addr × NoSlash o.domain

pub record IsUsable (o : DeployOpts) : Type 0 where
  pub bin_path : Value o.bin_path
  pub state_dir : Value o.state_dir
  pub domain : Value o.domain
  pub mode : ModeUsable o.mode o

-- What the command line keeps: no bind address in builtin mode, no contact in proxy mode.
abbrev kept_by : TlsMode → DeployOpts → DeployOpts
kept_by builtin o = record o { addr = [] }
kept_by proxy o = record o { acme_email = [] }

abbrev pub kept : DeployOpts → DeployOpts
kept o = kept_by o.mode o

no_scheme :
    (p d s : Text)
    → NoSlash p
    → NoSlash d
    → after_prefix (p ++ text "//") (d ++ (text "/v" ++ s)) ≡ none
unfolding after_prefix
no_scheme [] [] s hp hd = refl
no_scheme [] (c ∷ d) s hp hd = ground arith
no_scheme (x ∷ p) [] s hp hd = ground arith
no_scheme (x ∷ p) (c ∷ d) s hp hd = ground (arith, no_scheme p d s)

cut_slash : (d s : Text) → NoSlash d → cut b'/' (d ++ (b'/' ∷ s)) ≡ some (d, s)
unfolding cut
cut_slash [] s h = refl
cut_slash (c ∷ d) s h = ground (arith, cut_slash d s h.1)

domain_from_url-issuer :
    (d : Text) → NoSlash d → domain_from_url (text "https://" ++ (d ++ text "/v1/issue")) ≡ d
unfolding domain_from_url after_prefix
domain_from_url-issuer d h =
    rw
      (no_scheme (text "http:") d (text "1/issue") (omega arith) h, cut_slash d (text "v1/issue") h)
      refl

-- The words of a command line.
abbrev contact : Text → List Text
contact email = if str_eq email [] then [] else text "-acme-email" ∷ email ∷ []

abbrev words : TlsMode → DeployOpts → List Text
words builtin o = text "-state-dir" ∷ o.state_dir ∷ text "-domain" ∷ o.domain ∷ contact o.acme_email
words proxy o =
    text "-addr"
    ∷ o.addr
    ∷ text "-state-dir"
    ∷ o.state_dir
    ∷ text "-public-issuer-url"
    ∷ (text "https://" ++ (o.domain ++ text "/v1/issue"))
    ∷ []

given : (v : Text) → Value v → str_eq v [] ≡ false
given v h = ground (arith, str_eq_iff v [])

command-unwords :
    (m : TlsMode) (o : DeployOpts) → Value o.domain → command m o ≡ unwords (o.bin_path ∷ words m o)
unfolding command issuer_url public_url unwords
command-unwords builtin o d = elim (Bool-cases (str_eq o.acme_email [])) [
  | inl none_given ↦ rw none_given (simp append_assoc)
  | inr email ↦ rw email (simp append_assoc)
]
command-unwords proxy o d = rw (given o.domain d) (simp append_assoc)

abbrev opts : TlsMode → Text → Text → Text → Text → Text → DeployOpts
opts m bin dir domain email addr = record {
  bin_path = bin;
  state_dir = dir;
  mode = m;
  domain = domain;
  acme_email = email;
  addr = addr;
}

no_flag : (email : Text) → (email ≡ []) ⊎ Value email → is_flag email ≡ false
no_flag email (inl e) = rw e refl
no_flag email (inr v) = v.1

normalized :
    (m : TlsMode) (bin dir d email addr : Text)
    → IsUsable (opts m bin dir d email addr)
    → normalize_flag_tokens (bin ∷ words m (opts m bin dir d email addr))
      ≡ bin ∷ words m (opts m bin dir d email addr)
unfolding normalize_flag_tokens cut str_eq
normalized builtin bin dir d email addr u = elim (Bool-cases (str_eq email [])) [
  | inl none_given ↦ rw (none_given, u.bin_path.1, u.state_dir.1, u.domain.1) refl
  | inr has ↦ rw (has, u.bin_path.1, u.state_dir.1, u.domain.1, no_flag email u.mode) refl
]
normalized proxy bin dir d email addr u = rw (u.bin_path.1, u.state_dir.1, u.mode.0.1) refl

read_command-words :
    (m : TlsMode) (bin dir d email addr : Text)
    → IsUsable (opts m bin dir d email addr)
    → read_command (bin ∷ words m (opts m bin dir d email addr))
      ≡ kept (opts m bin dir d email addr)
unfolding read_flags flag_name str_eq
read_command-words builtin bin dir d email addr u = elim (Bool-cases (str_eq email [])) [
  | inl none_given ↦ rw ((str_eq_iff email []).0 none_given) refl
  | inr has ↦ rw has refl
]
read_command-words proxy bin dir d email addr u = rw (domain_from_url-issuer d u.mode.1) refl

with_defaults-kept :
    (m : TlsMode) (bin dir d email addr : Text)
    → IsUsable (opts m bin dir d email addr)
    → with_defaults (kept (opts m bin dir d email addr)) ≡ kept (opts m bin dir d email addr)
unfolding with_defaults
with_defaults-kept builtin bin dir d email addr u =
    rw (given bin u.bin_path, given dir u.state_dir) refl
with_defaults-kept proxy bin dir d email addr u =
    rw (given bin u.bin_path, given dir u.state_dir, given addr u.mode.0) refl

literal : (c : ℕ) (w : Text) → All Graphic (c ∷ w) → Word (c ∷ w)
literal c w h = (λ e. cc, h)

contact-Word : (email : Text) → (email ≡ []) ⊎ Value email → All Word (contact email)
contact-Word email (inl e) = rw e (unfold str_eq in tt)
contact-Word email (inr v) =
    rw (given email v) (literal b'-' (text "acme-email") (omega arith), (v.0, tt))

append-Graphic : (v w : Text) → All Graphic v → All Graphic w → All Graphic (v ++ w)
append-Graphic [] w h k = k
append-Graphic (c ∷ v) w h k = (h.0, append-Graphic v w h.1 k)

words-Word :
    (m : TlsMode) (bin dir d email addr : Text)
    → IsUsable (opts m bin dir d email addr)
    → All Word (bin ∷ words m (opts m bin dir d email addr))
words-Word builtin bin dir d email addr u = (
  u.bin_path.0,
  (
    literal b'-' (text "state-dir") (omega arith),
    (
      u.state_dir.0,
      (literal b'-' (text "domain") (omega arith), (u.domain.0, contact-Word email u.mode)),
    ),
  ),
)
words-Word proxy bin dir d email addr u =
    let url = literal b'h' (text "ttps://" ++ (d ++ text "/v1/issue")) (
      append-Graphic (text "https://") (d ++ text "/v1/issue") (omega arith)
        (append-Graphic d (text "/v1/issue") u.domain.0.1 (omega arith))) in
    (
      u.bin_path.0,
      (
        literal b'-' (text "addr") (omega arith),
        (
          u.mode.0.0,
          (
            literal b'-' (text "state-dir") (omega arith),
            (u.state_dir.0, (literal b'-' (text "public-issuer-url") (omega arith), (url, tt))),
          ),
        ),
      ),
    )

command_words : (o : DeployOpts) → IsUsable o → parse_exec_start (command o.mode o) ≡ kept o
unfolding parse_exec_start
command_words o u = rw (command-unwords o.mode o u.domain) (
    rw
      (fields-unwords (o.bin_path ∷ words o.mode o)
        (words-Word o.mode o.bin_path o.state_dir o.domain o.acme_email o.addr u))
      (rw (normalized o.mode o.bin_path o.state_dir o.domain o.acme_email o.addr u) (
        rw (read_command-words o.mode o.bin_path o.state_dir o.domain o.acme_email o.addr u)
          (with_defaults-kept o.mode o.bin_path o.state_dir o.domain o.acme_email o.addr u))))

with_defaults-usable :
    (m : TlsMode) (bin dir d email addr : Text)
    → IsUsable (opts m bin dir d email addr)
    → with_defaults (opts m bin dir d email addr) ≡ opts m bin dir d email addr
unfolding with_defaults
with_defaults-usable builtin bin dir d email addr u =
    rw (given bin u.bin_path, given dir u.state_dir) refl
with_defaults-usable proxy bin dir d email addr u =
    rw (given bin u.bin_path, given dir u.state_dir, given addr u.mode.0) refl

-- A unit around the command of usable options.
adopt-command :
    (p o : DeployOpts)
    → IsUsable o
    → adopt_from_unit (some (render_unit_file_with_exec_start p (command o.mode o))) ≡ some (kept o)
unfolding adopt_from_unit
adopt-command p o u =
    let plain = words-Word o.mode o.bin_path o.state_dir o.domain o.acme_email o.addr u in
    let read : extract_exec_start_line (render_unit_file_with_exec_start p (command o.mode o))
        ≡ command o.mode o =
      rw (command-unwords o.mode o u.domain) (extract-render p o.bin_path (words o.mode o) plain) in
    let some_command : str_eq (command o.mode o) [] ≡ false =
      rw (command-unwords o.mode o u.domain)
        (Ends-ne_nil _ (unwords-Ends o.bin_path (words o.mode o) plain)) in
    rw read (rw some_command (ap some (command_words o u)))

-- A unit that is rendered for options whose fields are plain words is adopted with these options,
-- but for what the mode does not use: the bind address in builtin mode, the contact in proxy mode.
pub adopt-render :
    (o : DeployOpts)
    → IsUsable (with_defaults o)
    → adopt_from_unit (some (render_unit_file o)) ≡ some (kept (with_defaults o))
unfolding adopt_from_unit render_unit_file exec_start_line
adopt-render o u =
    let o' = with_defaults o in
    let same : with_defaults o' ≡ o' =
      with_defaults-usable o'.mode o'.bin_path o'.state_dir o'.domain o'.acme_email o'.addr u in
    rw same (adopt-command o' o' u)
