-- ===== src/Registry/Folder.antt =====
-- `baseFolder` and `sanitizeFolder` of daemon-go/peer/registry.go, on the characters of a text.
use Prim.Native.Char.{Char, code}
use repowire.Prelude.{ℕ, String, Bool, true, false, ◌&&◌, ◌||◌, ◌==◌, eqb, leb, if◌then◌else◌}

abbrev pub is_char : ℕ → Char → Bool
is_char n c = eqb (code c) n

abbrev pub contains_char : ℕ → String → Bool
contains_char n String.[] = false
contains_char n (String.◌∷◌ c s) = is_char n c || contains_char n s

-- The text without such characters at its end, and at its start.
abbrev pub trim_end : ℕ → String → String
trim_end n String.[] = String.[]
trim_end n (String.◌∷◌ c s) =
    let rest = trim_end n s in if rest == "" && is_char n c then String.[] else String.◌∷◌ c rest

abbrev pub trim_start : ℕ → String → String
trim_start n String.[] = String.[]
trim_start n (String.◌∷◌ c s) =
    let rest = trim_start n s in if is_char n c then rest else String.◌∷◌ c s

-- What follows the last slash.
abbrev pub after_last_slash : String → String
after_last_slash String.[] = String.[]
after_last_slash (String.◌∷◌ c s) =
    let rest = after_last_slash s in
    if contains_char b'/' (String.◌∷◌ c s) then rest else String.◌∷◌ c s

abbrev pub in_range : ℕ → ℕ → Char → Bool
in_range low high c = leb low (code c) && leb (code c) high

-- The characters that stay, a dash not among them.
abbrev pub stays_in_name : Char → Bool
stays_in_name c =
    is_char b'.' c
    || is_char b'_' c
    || in_range b'a' b'z' c
    || in_range b'A' b'Z' c
    || in_range b'0' b'9' c

-- Any other character is a dash, and dashes in a row are one.
unfoldable pub with_dashes : Bool → String → String
with_dashes prev_dash String.[] = String.[]
with_dashes prev_dash (String.◌∷◌ c s) = elim (stays_in_name c) [
  | true ↦ String.◌∷◌ c (with_dashes false s)
  | false ↦ let rest = with_dashes true s in if prev_dash then rest else String.◌∷◌ "-" rest
]

abbrev pub or_peer : String → String
or_peer name = if name == "" then "peer" else name

-- `sanitizeFolder`
unfoldable pub sanitize_folder : String → String
unfolding with_dashes
sanitize_folder name = or_peer (trim_end b'-' (trim_start b'-' (with_dashes false name)))

-- `baseFolder`
unfoldable pub base_folder : String → String
unfolding sanitize_folder
base_folder path =
    let part = after_last_slash (trim_end b'/' path) in
    if part == "" then "peer" else sanitize_folder part
