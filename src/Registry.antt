-- ===== src/Registry.antt =====
-- libs/ntdll/registry.c: the table of values and the queries of it.
-- A path or a name is the list of its characters, a buffer that of its bytes; `none` is an access
-- outside a buffer.
pub mod Query
use Prim.Native.Char.{code}
use Prim.Native.String.{String}
use nloader.Base.{
  ℕ, zero, suc, ◌+◌, ◌-◌, ◌*◌, ◌/◌, ◌%◌, ◌^◌, Bool, true, false, ◌&&◌, Option, none, some, List, [],
  ◌∷◌, ◌++◌, ltb, leb, ◌==◌, if◌then◌else◌, take, drop, length, replicate,
}
use nloader.Wide.{widetol}
use nloader.Rtl.{CountedString, ◌>>=◌, unicode_to_oem_n}

abbrev pub codes : String → List ℕ
codes String.[] = []
codes (String.◌∷◌ c s) = code c ∷ codes s

-- The bytes of a string of units below 256.
abbrev pub wide_bytes : List ℕ → List ℕ
wide_bytes [] = []
wide_bytes (c ∷ s) = c ∷ 0 ∷ wide_bytes s

-- `L"..."` with the units behind it.
abbrev wide_literal : String → ℕ → List ℕ
wide_literal s zeros = wide_bytes (codes s ++ replicate zeros 0)

abbrev pub reg_sz : ℕ
reg_sz = 1

abbrev pub reg_multi_sz : ℕ
reg_multi_sz = 7

pub record RegKey : Type 0 where
  pub path : List ℕ
  pub content : List ℕ
  pub kind : ℕ

abbrev boot_execute : List ℕ
boot_execute = wide_literal "autocheck autochk *" 3

-- `RegKeys`
abbrev pub reg_keys : List RegKey
reg_keys =
    record {
      path = codes "Software\\Microsoft\\Windows NT\\CurrentVersion\\SystemRoot";
      content = wide_literal "c:\\windows" 1;
      kind = reg_sz;
    }
    ∷ record {
      path = codes "Hardware\\Description\\System\\Identifier";
      content = wide_literal "AT/AT COMPATIBLE" 1;
      kind = reg_sz;
    }
    ∷ record {
      path = codes "System\\Setup\\SystemPartition";
      content = wide_literal "\\Device\\HarddiskVolume1" 1;
      kind = reg_sz;
    }
    ∷ record {
      path = codes "System\\ControlSet000\\Control\\SystemStartOptions";
      content = wide_literal "FASTDETECT" 1;
      kind = reg_sz;
    }
    ∷ record {
      path = codes "System\\CurrentControlSet\\Control\\SystemStartOptions";
      content = wide_literal "FASTDETECT" 1;
      kind = reg_sz;
    }
    ∷ record {
      path = codes "Session Manager\\BootExecute";
      content = boot_execute;
      kind = reg_multi_sz;
    }
    ∷ record {
      path = codes "System\\ControlSet000\\Control\\Session Manager\\BootExecute";
      content = boot_execute;
      kind = reg_multi_sz;
    }
    ∷ record {
      path = codes "System\\CurrentControlSet\\Control\\Session Manager\\BootExecute";
      content = boot_execute;
      kind = reg_multi_sz;
    }
    ∷ record {
      path =
          codes "System\\ControlSet000\\Control\\Session Manager\\Memory Management\\PagingFiles";
      content = wide_literal "c:\\pagefile.sys" 3;
      kind = reg_multi_sz;
    }
    ∷ []

abbrev pub reg_prefix : List ℕ
reg_prefix = codes "\\Registry\\Machine\\"

-- `!strcasecmp(a, b)`
unfoldable pub same_ignoring_case : List ℕ → List ℕ → Bool
unfolding widetol
same_ignoring_case [] [] = true
same_ignoring_case [] (y ∷ ys) = false
same_ignoring_case (x ∷ xs) [] = false
same_ignoring_case (x ∷ xs) (y ∷ ys) = widetol x == widetol y && same_ignoring_case xs ys

-- `!strncasecmp(path, prefix, strlen(prefix))`
unfoldable pub starts_ignoring_case : List ℕ → List ℕ → Bool
unfolding widetol
starts_ignoring_case [] path = true
starts_ignoring_case (x ∷ xs) [] = false
starts_ignoring_case (x ∷ xs) (y ∷ ys) = widetol x == widetol y && starts_ignoring_case xs ys

-- The loop of `RegistryLookup`.
unfoldable pub find_key : List RegKey → List ℕ → Option RegKey
unfolding same_ignoring_case
find_key [] path = none
find_key (k ∷ rest) path =
    let later = find_key rest path in if same_ignoring_case path k.path then some k else later

unfoldable pub registry_lookup : List RegKey → List ℕ → Option RegKey
unfolding find_key starts_ignoring_case
registry_lookup keys path =
    find_key keys
      (if starts_ignoring_case reg_prefix path then drop (length reg_prefix) path else path)

-- `snprintf(path, sizeof(path), "%s\\%s", ...)`
unfoldable pub value_path : List ℕ → List ℕ → List ℕ
value_path key name = take 511 (key ++ (b'\\' ∷ name))

-- The characters up to the terminator.
unfoldable pub until_terminator : List ℕ → Option (List ℕ)
until_terminator [] = none
until_terminator (c ∷ rest) =
    let more = until_terminator rest in if c == 0 then some [] else (more >>= λ cs. some (c ∷ cs))

-- `DECLAREVARCONV` and `US2STR`: what the characters of a counted string are taken for.
abbrev pub conversion_buffer : List ℕ
conversion_buffer = codes "(nil)" ++ replicate 1019 0

unfoldable pub us2str : CountedString → Option (List ℕ)
unfolding unicode_to_oem_n until_terminator
us2str name = unicode_to_oem_n conversion_buffer 1024 (some name.buffer) name.size >>= λ converted.
    until_terminator converted.1.0

pub data Status : Type 0 where
  success : Status
  name_not_found : Status
  buffer_too_small : Status
  not_implemented : Status

pub data InformationClass : Type 0 where
  full : InformationClass
  partial : InformationClass
  other : InformationClass

unfoldable pub le32 : ℕ → List ℕ
le32 v = (v % 256) ∷ (v / 256 % 256) ∷ (v / 65536 % 256) ∷ (v / 16777216 % 256) ∷ []

-- The structures that a query writes, with their data.
unfoldable pub full_information : RegKey → List ℕ
unfolding le32
full_information k =
    le32 0
    ++ (le32 k.kind
        ++ (le32 20 ++ (le32 (length k.content) ++ (le32 (length k.content) ++ k.content))))

unfoldable pub partial_information : RegKey → List ℕ
unfolding le32
partial_information k = le32 0 ++ (le32 k.kind ++ (le32 (length k.content) ++ k.content))

unfoldable pub overwrite : List ℕ → List ℕ → Option (List ℕ)
overwrite buffer bytes =
    if leb (length bytes) (length buffer) then some (bytes ++ drop (length bytes) buffer) else none

pub record Answer : Type 0 where
  pub status : Status
  pub buffer : List ℕ
  pub result_length : Option ℕ

-- The two cases, with the size of the structure and what is written.
unfoldable pub answer_with : List ℕ → ℕ → ℕ → List ℕ → Option Answer
unfolding overwrite
answer_with buffer room needed information =
    let written = overwrite buffer information >>= λ b.
    some (record { status = success; buffer = b; result_length = some needed }) in
    if ltb room needed
    then some (record { status = buffer_too_small; buffer = buffer; result_length = some needed })
    else written

unfoldable pub query_value : Option RegKey → InformationClass → List ℕ → ℕ → Option Answer
unfolding answer_with full_information partial_information
query_value none class buffer room =
    some (record { status = name_not_found; buffer = buffer; result_length = none })
query_value (some k) full buffer room =
    answer_with buffer room (length k.content + 24) (full_information k)
query_value (some k) partial buffer room =
    answer_with buffer room (length k.content + 16) (partial_information k)
query_value (some k) other buffer room =
    some (record { status = not_implemented; buffer = buffer; result_length = none })

-- `NtQueryValueKey` on a key with the name `key`.
unfoldable pub nt_query_value_key :
    List RegKey → List ℕ → CountedString → InformationClass → List ℕ → ℕ → Option Answer
unfolding us2str value_path registry_lookup query_value
nt_query_value_key keys key name class buffer room = us2str name >>= λ chars.
    query_value (registry_lookup keys (value_path key chars)) class buffer room

-- An entry of the table of `RtlQueryRegistryValues`: the characters of its name, whether it is
-- `RTL_QUERY_REGISTRY_DIRECT`, and the string for the value.
pub record Entry : Type 0 where
  pub key : List ℕ
  pub direct : Bool
  pub target : CountedString

unfoldable pub fill_target : RegKey → CountedString → Option (Status × Option CountedString)
unfolding overwrite
fill_target k target =
    let filled = overwrite target.buffer k.content >>= λ b.
    some (success, some (record target { size = length k.content; buffer = b })) in
    if ltb target.maximum_size (length k.content) then some (buffer_too_small, none) else filled

-- The loop over the table; the string that was filled comes with the entry's index.
unfoldable pub query_values :
    List RegKey → List ℕ → List Entry → ℕ → Option (Status × (ℕ × Option CountedString))
unfolding registry_lookup value_path fill_target
query_values keys path [] i = some (name_not_found, (i, none))
query_values keys path (e ∷ rest) i =
    let later = query_values keys path rest (i + 1) in
    elim (registry_lookup keys (value_path path e.key)) [
      | none ↦ later
      | some k ↦
          let filled = fill_target k e.target >>= λ r. some (r.0, (i, r.1)) in
          if e.direct then filled else later
    ]

-- `if (!ValueNameA[i]) ValueNameA[i] = '|';`
unfoldable pub mark_end : List ℕ → ℕ → Option (List ℕ)
mark_end [] i = none
mark_end (c ∷ cs) zero = some ((if c == 0 then b'|' else c) ∷ cs)
mark_end (c ∷ cs) (suc i) = mark_end cs i >>= λ cs'. some (c ∷ cs')

-- The loop of `NtSetValueKey` over the buffer with the name, which is as long as the data.
unfoldable pub mark_ends : ℕ → List ℕ → ℕ → Option (List ℕ)
unfolding mark_end
mark_ends zero chars i = some chars
mark_ends (suc n) chars i = mark_end chars i >>= λ chars'. mark_ends n chars' (i + 1)

unfoldable pub set_value : ℕ → List ℕ → ℕ → Option (List ℕ)
unfolding mark_ends
set_value kind chars size =
    let marked = mark_ends (size / 2) chars 0 in if kind == reg_multi_sz then marked else some chars
