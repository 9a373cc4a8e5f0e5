-- ===== src/Http/Passes/Blank.antt =====
-- internal/http/server.go: what becomes of the form for a new pass or a revision as it is shown.
use mgp.Base.{List, [], text_equality, Result, ok, err}
use mgp.Gatepass.Domain.{Item, Draft}

-- The items of a result.
abbrev items_or : Result Draft → List Item
items_or (ok draft) = draft.items
items_or (err _) = []

abbrev list_or : Result (List Item) → List Item
list_or (ok items) = items
list_or (err _) = []
