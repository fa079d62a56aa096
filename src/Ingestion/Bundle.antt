-- ===== src/Ingestion/Bundle.antt =====
-- bundle.py: a bundle of evidence, a tar.gz with a manifest.
pub mod Paths
pub mod Safe
use auditcore.Base.{
  ℕ, String, Option, none, some, List, [], ◌∷◌, ◌++◌, Bool, true, false, ◌||◌, not, filter, map,
  ◌==◌, if◌then◌else◌,
}
use auditcore.Base.Text.{Text, codes, text_eq, starts_with}
use auditcore.Base.Sort.{sorted, text_le}
use auditcore.Base.Json.{
  Value, null, str, arr, obj, Fields, from_items, Runtime, lookup, index, iterate, py_str,
}
use auditcore.Base.Error.{
  PyError, Result, ok, raised, key_error, attribute_error, type_error, value_error, bundle_error,
  ◌>>=◌, ◌>>◌,
}
use auditcore.Base.Uuid.{Uuid, parse_uuid}

-- The contents of a file.
abbrev pub Bytes : Type 0
Bytes = Text

-- A member of an archive. `extract` is `tf.extractfile(member)`: `none` if it is no regular file,
-- else what `read()` of the file gives.
pub record Member : Type 0 where
  pub name : Text
  pub extract : Result (Option (Result Bytes))

-- `tf.getmember`, which raises KeyError for a name that the archive has not.
abbrev pub Archive : Type 0
Archive = Value → Result Member

-- `tarfile.open` of a gzipped archive: a TarError with its message, or another exception.
pub data Opened : Type 0 where
  archive : Archive → Opened
  tar_error : Text → Opened
  failed : PyError → Opened

-- The packages that the parser calls.
pub record Formats : Type 0 where
  pub open_tar : Bytes → Opened
  -- `json.loads` of the contents of a file; a JSONDecodeError gives its message
  pub loads : Bytes → Result (Text × Option Value)
  -- `datetime.fromisoformat` of a text, in microseconds since the start of the
  -- year 1; `none` is a ValueError
  pub fromisoformat : Text → Option ℕ
  pub runtime : Runtime

pub record BundleItem : Type 0 where
  pub id : Uuid
  pub source_tool : Value
  pub source_tool_version : Value
  pub category : Value
  pub collected_at : ℕ
  pub file_path : Value
  pub raw_bytes : Bytes

pub record Bundle : Type 0 where
  pub schema_version : Text
  pub collector_version : Text
  pub collected_at : ℕ
  pub scope : Value
  pub items : List BundleItem

is_absent : Fields → String → Bool
is_absent fs key = elim (lookup key fs) [ none ↦ true | some v ↦ false ]

-- `sorted(required - d.keys())`
unfoldable pub missing_keys : List String → Fields → List Text
unfolding is_absent
missing_keys required fs = sorted text_le (map codes (filter (is_absent fs) required))

abbrev required_top : List String
required_top = "schema_version" ∷ "collector_version" ∷ "collected_at" ∷ "scope" ∷ "items" ∷ []

abbrev required_item : List String
required_item =
    "id" ∷ "source_tool" ∷ "source_tool_version" ∷ "category" ∷ "collected_at" ∷ "file" ∷ []

-- `".." in name.split("/")`; `part` is what stands before `name` in its component.
has_parent_part : Text → Text → Bool
has_parent_part part [] = text_eq part (codes "..")
has_parent_part part (c ∷ s) =
    let next = has_parent_part [] s in
    let longer = has_parent_part (part ++ c ∷ []) s in
    if c == b'/' then text_eq part (codes "..") || next else longer

unfoldable pub is_unsafe : Text → Bool
unfolding has_parent_part
is_unsafe name = starts_with name (codes "/") || has_parent_part [] name

-- `UUID(v)`
unfoldable pub uuid_of : Value → Result Uuid
uuid_of null = raised type_error
uuid_of (str s) = elim (parse_uuid s) [ none ↦ raised value_error | some u ↦ ok u ]
uuid_of _ = raised attribute_error

module _ (io : Formats) where
  -- `datetime.fromisoformat(v)`
  unfoldable pub time_of : Value → Result ℕ
  time_of (str s) = elim (io.fromisoformat s) [ none ↦ raised value_error | some t ↦ ok t ]
  time_of _ = raised type_error

  abbrev quoted_keys : List Text → Text
  quoted_keys ks = io.runtime.repr (arr (from_items (map str ks)))

  -- `required - v.keys()`: only a dict has keys.
  require_keys : List String → Text → Value → Result (Unit {0})
  require_keys required message (obj fs) = elim (missing_keys required fs) [
    | [] ↦ ok tt
    | k ∷ ks ↦ raised (bundle_error (message ++ quoted_keys (k ∷ ks)))
  ]
  require_keys required message _ = raised attribute_error

  -- A KeyError becomes a BundleError.
  unfoldable pub or_missing : Text → Result Member → Result Member
  or_missing message (raised key_error) = raised (bundle_error message)
  or_missing message r = r

  -- The file of a member, which has to be a regular one.
  unfoldable pub regular : Text → Result (Option (Result Bytes)) → Result (Result Bytes)
  regular message (ok (some file)) = ok file
  regular message (ok none) = raised (bundle_error message)
  regular message (raised e) = raised e

  check_path : Text → Result (Unit {0})
  unfolding is_unsafe
  check_path name =
      if is_unsafe name then raised (bundle_error (codes "unsafe bundle path: " ++ name)) else ok tt

  -- The arguments of BundleItem, in their order.
  build_item : Value → Result Bytes → Result BundleItem
  unfolding uuid_of time_of
  build_item raw file = do
    id_value ← index raw "id"
    id ← uuid_of id_value
    source_tool ← index raw "source_tool"
    source_tool_version ← index raw "source_tool_version"
    category ← index raw "category"
    collected ← index raw "collected_at"
    collected_at ← time_of collected
    file_path ← index raw "file"
    raw_bytes ← file
    ok (record {
      id = id;
      source_tool = source_tool;
      source_tool_version = source_tool_version;
      category = category;
      collected_at = collected_at;
      file_path = file_path;
      raw_bytes = raw_bytes;
    })

  -- One turn of the loop over the items.
  unfoldable pub parse_item : Archive → Value → Result BundleItem
  unfolding require_keys or_missing regular check_path build_item
  parse_item getmember raw = do
    require_keys required_item (codes "item missing keys: ") raw
    path ← index raw "file"
    member ←
        or_missing (codes "manifest references missing file: " ++ py_str io.runtime path)
          (getmember path)
    check_path member.name
    file ← regular (codes "bundle path is not a regular file: " ++ member.name) member.extract
    build_item raw file

  unfoldable pub parse_items : Archive → List Value → Result (List BundleItem)
  unfolding parse_item
  parse_items getmember [] = ok []
  parse_items getmember (raw ∷ rest) = do
    item ← parse_item getmember raw
    items ← parse_items getmember rest
    ok (item ∷ items)

  manifest_of : Text × Option Value → Result Value
  manifest_of (message, some v) = ok v
  manifest_of (message, none) =
      raised (bundle_error (codes "manifest.json is not valid JSON: " ++ message))

  -- The manifest of an archive.
  unfoldable pub read_manifest : Archive → Result Value
  unfolding or_missing regular manifest_of
  read_manifest getmember = do
    member ←
        or_missing (codes "bundle missing manifest.json") (getmember (str (codes "manifest.json")))
    file ← regular (codes "manifest.json is not a regular file") member.extract
    contents ← file
    parsed ← io.loads contents
    manifest_of parsed

  -- What the parser makes of a manifest.
  unfoldable pub parse_manifest : Archive → Value → Result Bundle
  unfolding require_keys parse_items time_of
  parse_manifest getmember manifest = do
    require_keys required_top (codes "manifest missing keys: ") manifest
    listed ← index manifest "items"
    raws ← iterate listed
    items ← parse_items getmember raws
    schema_version ← index manifest "schema_version"
    collector_version ← index manifest "collector_version"
    collected ← index manifest "collected_at"
    collected_at ← time_of collected
    scope ← index manifest "scope"
    ok (record {
      schema_version = py_str io.runtime schema_version;
      collector_version = py_str io.runtime collector_version;
      collected_at = collected_at;
      scope = scope;
      items = items;
    })

  parse_opened : Opened → Result Bundle
  unfolding read_manifest parse_manifest
  parse_opened (tar_error message) = raised (bundle_error (codes "not a valid tar.gz: " ++ message))
  parse_opened (failed e) = raised e
  parse_opened (archive getmember) = read_manifest getmember >>= parse_manifest getmember

  unfoldable pub parse_bundle : Bytes → Result Bundle
  unfolding parse_opened
  parse_bundle contents = parse_opened (io.open_tar contents)
