-- ===== src/Store/Search/Tests.antt =====
-- A search text with both wildcards.
use target_service.Prelude.{◌≡◌, some}
use target_service.Text.{codes}
use target_service.Store.Search.{escape_like}
use target_service.Store.Search.Laws.{literal, literal-escape_like}

literal-escape_like_example : literal (escape_like (codes "50%_off")) ≡ some (codes "50%_off")
literal-escape_like_example = literal-escape_like (codes "50%_off")
