-- ===== src/Config.antt =====
-- The configuration files of perfrunner/settings.py: what is kept of a parsed file, overrides of
-- single options, and the description of the clusters. `ConfigParser` is Python's: sections and
-- their options stand in the order of the file, and values as they are read, with one % for each %% that
-- is written. References %(name)s to other options are left out, and the options of a section are
-- taken to hold those of [DEFAULT].
pub mod Hosts
pub mod Listed
pub mod Overrides
pub mod Options
pub mod Targets
pub mod Scalars
use perfrunner.Prelude.{
  ℕ, Bool, true, false, List, [], ◌∷◌, ◌++◌, map, Option, none, some, Result, ok, err, value_error,
  index_error, key_error, no_section, no_option, ◌>>=◌, ◌==◌, if◌then◌else◌,
}
use perfrunner.Text.{Text, codes, eq_text}
use perfrunner.Text.Words.{split, split_on, is_infix}

-- A dictionary of texts, in the order of insertion.
abbrev pub Options : Type 0
Options = List (Text × Text)

module _ {V : Type 0} where
  unfoldable pub lookup : Text → List (Text × V) → Option V
  lookup k [] = none
  lookup k ((j, v) ∷ d) = if eq_text k j then some v else lookup k d

  -- d[k] = v
  unfoldable pub insert : Text → V → List (Text × V) → List (Text × V)
  insert k v [] = (k, v) ∷ []
  insert k v ((j, w) ∷ d) = if eq_text k j then (j, v) ∷ d else (j, w) ∷ insert k v d

abbrev pub or_error {ℓ} : {A : Type ℓ} → Option A → Result A → Result A
or_error (some a) r = ok a
or_error none r = r

-- The sections of a parsed file.
abbrev pub Parser : Type 0
Parser = List (Text × Options)

abbrev pub is_some {ℓ} : {A : Type ℓ} → Option A → Bool
is_some (some a) = true
is_some none = false

-- `add_section`, which refuses the name of the section of defaults.
unfoldable pub add_section : Text → Parser → Result Parser
add_section section p =
    if eq_text section (codes "DEFAULT") then err value_error else ok (p ++ (section, []) ∷ [])

abbrev set_in : Text → Text → Text → Parser → Option Options → Result Parser
set_in section option value p none = err no_section
set_in section option value p (some options) = ok (insert section (insert option value options) p)

-- The value that is read for a written one: %% stands for %, and `set` refuses any other %. `odd` says
-- that one % is behind.
unfoldable pub interpolated : Bool → Text → Result Text
interpolated false [] = ok []
interpolated true [] = err value_error
interpolated true (c ∷ t) =
    let rest = interpolated false t in
    if c == b'%' then (rest >>= λ read. ok (c ∷ read)) else err value_error
interpolated false (c ∷ t) =
    let rest = interpolated false t in
    let odd = interpolated true t in if c == b'%' then odd else (rest >>= λ read. ok (c ∷ read))

-- `config.set`
unfoldable pub set_option : Text → Text → Text → Parser → Result Parser
unfolding interpolated
set_option section option value p =
    interpolated false value >>= λ read. set_in section option read p (lookup section p)

-- One round of the loop of `Config.override`: a row has three fields.
unfoldable pub override_row : List Text → Parser → Result Parser
unfolding add_section set_option
override_row (section ∷ option ∷ value ∷ []) p =
    (if is_some (lookup section p) then ok p else add_section section p) >>= λ q.
    set_option section option value q
override_row [] p = err value_error
override_row (a ∷ []) p = err value_error
override_row (a ∷ b ∷ []) p = err value_error
override_row (a ∷ b ∷ c ∷ d ∷ r) p = err value_error

-- `Config.override`, of the rows that `csv.reader` makes of the arguments.
unfoldable pub override : List (List Text) → Parser → Result Parser
unfolding override_row
override [] p = ok p
override (row ∷ rows) p = override_row row p >>= λ q. override rows q

abbrev or_empty : Option Options → Options
or_empty (some options) = options
or_empty none = []

-- `Config._get_options_as_dict`
unfoldable pub get_options_as_dict : Text → Parser → Options
get_options_as_dict section p = or_empty (lookup section p)

-- config.items(section)
unfoldable pub section_items : Text → Parser → Result Options
section_items section p = or_error (lookup section p) (err no_section)

-- config.get(section, option)
unfoldable pub get_option : Text → Text → Parser → Result Text
unfolding section_items
get_option section option p =
    section_items section p >>= λ options. or_error (lookup option options) (err no_option)

-- The text in front of the first colon: `s.split(':')[0]`
abbrev first_piece : List Text → Text
first_piece [] = []
first_piece (h ∷ rest) = h

unfoldable pub host_of : Text → Text
host_of s = first_piece (split_on b':' s)

-- `host, roles = server.split(':')`
abbrev unpack : List Text → Result (Text × Text)
unpack (host ∷ roles ∷ []) = ok (host, roles)
unpack [] = err value_error
unpack (a ∷ []) = err value_error
unpack (a ∷ b ∷ c ∷ r) = err value_error

unfoldable pub host_roles : Text → Result (Text × Text)
host_roles server = unpack (split_on b':' server)

-- The properties of `ClusterSpec`, on the items of the section [clusters].
unfoldable pub clusters : Options → List (Text × List Text)
clusters [] = []
clusters ((name, servers) ∷ items) = (name, map host_of (split servers)) ∷ clusters items

abbrev pub first_server : List Text → Result Text
first_server [] = err index_error
first_server (s ∷ ss) = ok s

-- All masters; a cluster without servers raises an exception.
unfoldable pub masters : Options → Result (List Text)
masters [] = ok []
masters ((name, servers) ∷ items) =
    first_server (map host_of (split servers)) >>= λ m. masters items >>= λ ms. ok (m ∷ ms)

unfoldable pub servers : Options → List Text
servers [] = []
servers ((name, line) ∷ items) = map host_of (split line) ++ servers items

unfoldable pub with_role : Text → List Text → Result (List Text)
with_role role [] = ok []
with_role role (server ∷ rest) = host_roles server >>= λ hr.
    with_role role rest >>= λ hosts. ok (if is_infix role hr.1 then hr.0 ∷ hosts else hosts)

unfoldable pub servers_by_role : Text → Options → Result (List Text)
unfolding with_role
servers_by_role role [] = ok []
servers_by_role role ((name, line) ∷ items) = with_role role (split line) >>= λ hosts.
    servers_by_role role items >>= λ more. ok (hosts ++ more)

unfoldable pub servers_by_role_from_first_cluster : Text → Options → Result (List Text)
unfolding with_role
servers_by_role_from_first_cluster role [] = err index_error
servers_by_role_from_first_cluster role ((name, line) ∷ items) = with_role role (split line)

unfoldable pub add_roles : List Text → Options → Result Options
add_roles [] d = ok d
add_roles (server ∷ rest) d = host_roles server >>= λ hr. add_roles rest (insert hr.0 hr.1 d)

unfoldable pub roles_from : Options → Options → Result Options
unfolding add_roles
roles_from [] d = ok d
roles_from ((name, line) ∷ items) d = add_roles (split line) d >>= λ e. roles_from items e

unfoldable pub roles : Options → Result Options
unfolding roles_from
roles items = roles_from items []

-- `roles[node]`
unfoldable pub roles_of : Text → Options → Result Text
unfolding roles
roles_of node items = roles items >>= λ d. or_error (lookup node d) (err key_error)

unfoldable pub data_path : Parser → Result Text
unfolding get_option
data_path p = get_option (codes "storage") (codes "data") p

-- The fallback is evaluated in any case.
unfoldable pub index_path : Parser → Result Text
unfolding data_path
index_path p = data_path p >>= λ fallback. section_items (codes "storage") p >>= λ options.
    or_error (lookup (codes "index") options) (ok fallback)

abbrev words_of : Option Text → List Text
words_of (some t) = split t
words_of none = []

-- With a fallback, a missing section counts as a missing option.
unfoldable pub analytics_paths : Parser → List Text
unfolding get_options_as_dict
analytics_paths p = words_of (lookup (codes "analytics") (get_options_as_dict (codes "storage") p))
