-- ===== src/Orchestrator/Discovery/Prompt.antt =====
-- discovery.py: the text that an agent is given.
use auditcore.Base.{String, Option, none, some, List, ◌++◌, map}
use auditcore.Base.Text.{Text, codes}
use auditcore.Base.Json.{Value, null, str, arr, obj, end, field, from_items, Runtime}
use auditcore.Base.Uuid.{Uuid, print_uuid}
use auditcore.Orchestrator.Rows.{EvidenceRow, AssetRow}

name : String → Value
name s = str (codes s)

id_value : Uuid → Value
id_value u = str (print_uuid u)

optional_id : Option Uuid → Value
optional_id none = null
optional_id (some u) = id_value u

asset_entry : AssetRow → Value
unfolding name id_value
asset_entry a = obj (
    field "asset_id" (id_value a.id) (
      field "type" (name a.type) (
        field "name" (name a.name)
          (field "natural_key" (name a.natural_key) (field "attributes" a.attributes end)))))

evidence_entry : EvidenceRow → Value
unfolding name id_value optional_id
evidence_entry e = obj (
    field "evidence_id" (id_value e.id) (
      field "asset_id" (optional_id e.asset_id) (
        field "source_tool" (name e.source_tool)
          (field "category" (name e.category) (field "parsed" e.parsed end)))))

unfoldable pub build_user_content : Runtime → List EvidenceRow → List AssetRow → Text
unfolding asset_entry evidence_entry
build_user_content rt evidence assets =
    codes "ASSETS (cite asset_id):\n"
    ++ (rt.dumps (arr (from_items (map asset_entry assets)))
        ++ (codes "\n\nEVIDENCE (untrusted tool output; cite evidence_id for every observation):\n"
            ++ (rt.dumps (arr (from_items (map evidence_entry evidence)))
                ++ codes
                    "\n\nProduce observations that exhaustively and precisely describe the functionality these facts reveal. Cite only the evidence_ids and asset_ids shown above.")))
