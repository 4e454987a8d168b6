-- ===== src/Base/Dicts.antt =====
-- Dictionaries.
use Prim.Native.String.{String}
use mathlib.Core.List.{List, [], ◌∷◌}
use text.Mathlib.Text.{◌==◌ as str_eq}
use tiny_agent.Base.Tests.{if◌then◌else◌}
use tiny_agent.Base.Results.{Result, ok, err, key_error}

-- A dictionary with texts as its keys, in the order in which they were added.
abbrev pub Dict : Type 0 → Type 0
Dict V = List (String × V)

abbrev pub dict_put : {V : Type 0} → String → V → Dict V → Dict V
dict_put key v [] = (key, v) ∷ []
dict_put key v ((k, w) ∷ rest) =
    if str_eq key k then (k, v) ∷ rest else (k, w) ∷ dict_put key v rest

abbrev pub dict_at : {V : Type 0} → String → Dict V → Result V
dict_at key [] = err (key_error key)
dict_at key ((k, v) ∷ rest) = if str_eq key k then ok v else dict_at key rest
