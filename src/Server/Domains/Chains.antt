-- ===== src/Server/Domains/Chains.antt =====
-- server/auth.go, server/filesystem.go: the loop over an entry and its parents.
use smart_web.Base.{none, some, ◌⊎◌, List, [], ◌∷◌, ◌≡◌}
use smart_web.Server.Entry.{Entry, parent}

-- `Parent` of an entry panics, or finds no parent.
abbrev pub IsLast : Entry → Type 0
IsLast e = (parent e ≡ none) ⊎ (parent e ≡ some none)

-- Each entry is followed by its parent, up to one whose `Parent` finds none, or panics.
pub IsComplete : List Entry → Type 0
IsComplete [] = ⊥
IsComplete (e ∷ []) = IsLast e
IsComplete (e ∷ f ∷ es) = (parent e ≡ some (some f)) × IsComplete (f ∷ es)
