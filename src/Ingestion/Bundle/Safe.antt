-- ===== src/Ingestion/Bundle/Safe.antt =====
-- bundle.py: where the items of a bundle come from.
use auditcore.Base.{◌≡◌, some, List, [], ◌∷◌}
use auditcore.Base.Text.{Text}
use auditcore.Base.Json.{Value, index, iterate}
use auditcore.Base.Error.{Result, ok}
use auditcore.Ingestion.Bundle.Paths.{resolve, IsBelow}
use auditcore.Ingestion.Bundle.{
  Bytes, Member, Archive, Formats, BundleItem, Bundle, archive, read_manifest,
}

-- The item's bytes are those of a regular member of the archive, which the manifest names, and whose
-- path leads to a place below whatever directory it starts from; the item's tool and category are
-- those of the manifest.
pub record IsFrom (getmember : Archive) (raw : Value) (item : BundleItem) : Type 0 where
  pub named : index raw "file" ≡ ok item.file_path
  pub tool : index raw "source_tool" ≡ ok item.source_tool
  pub category : index raw "category" ≡ ok item.category
  pub member : Member
  pub found : getmember item.file_path ≡ ok member
  pub inside : (dir : List Text) → IsBelow dir (resolve dir member.name)
  pub contents : member.extract ≡ ok (some (ok item.raw_bytes))

-- Each item is made of the entry in the same place.
abbrev pub AllFrom : Archive → List Value → List BundleItem → Type 0
AllFrom getmember [] [] = Unit
AllFrom getmember (raw ∷ raws) (item ∷ items) =
    IsFrom getmember raw item × AllFrom getmember raws items
AllFrom getmember _ _ = ⊥

module _ (io : Formats) where
  record IsBuilt (raw : Value) (file : Result Bytes) (item : BundleItem) : Type 0 where
    named : index raw "file" ≡ ok item.file_path
    tool : index raw "source_tool" ≡ ok item.source_tool
    category : index raw "category" ≡ ok item.category
    bytes : file ≡ ok item.raw_bytes

  -- What a bundle that was parsed is, over the archive that it came in.
  pub record IsParsed (contents : Bytes) (b : Bundle) : Type 0 where
    pub getmember : Archive
    pub opened : io.open_tar contents ≡ archive getmember
    pub manifest : Value
    pub read : read_manifest io getmember ≡ ok manifest
    pub listed : Value
    pub items_listed : index manifest "items" ≡ ok listed
    pub raws : List Value
    pub iterated : iterate listed ≡ ok raws
    pub from_archive : AllFrom getmember raws b.items

  record IsMade (getmember : Archive) (manifest : Value) (b : Bundle) : Type 0 where
    listed : Value
    items_listed : index manifest "items" ≡ ok listed
    raws : List Value
    iterated : iterate listed ≡ ok raws
    from_archive : AllFrom getmember raws b.items
