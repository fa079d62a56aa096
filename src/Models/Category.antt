-- ===== src/Models/Category.antt =====
-- The categories of evidence in core.py.
pub data Category : Type 0 where
  security performance cloud kubernetes database hardware network software inventory : Category
