-- ===== src/Rendering/Shown.antt =====
-- loader.py and render.py: what the pages of a run show of its observations.
use auditcore.Base.Text.{Text}
use auditcore.Base.Exec.Returns.{Returns}
use auditcore.Base.Uuid.{Uuid}
