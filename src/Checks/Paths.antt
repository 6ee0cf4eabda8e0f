-- ===== src/Checks/Paths.antt =====
-- tooling/loop/src/checks/paths.ts: the files whose text is code. The shared loop over the files of
-- a diff, which every check writes as `for … of` with `findings.push`, stands here too.
use space_elysiajs_orpc.Prelude.{String, Bool, List, [], ◌∷◌, ◌++◌}
use space_elysiajs_orpc.Regexp.{Re, end, test}
use space_elysiajs_orpc.Regexp.Classes.{in_set, literal, maybe, all_of, any_of}

-- `/\.(?:[cm]?[jt]sx?|vue|svelte|astro)$/`
abbrev code_file : Re
code_file = all_of (
    literal "."
    ∷ any_of (all_of (maybe (in_set "cm") ∷ in_set "jt" ∷ literal "s" ∷ maybe (literal "x") ∷ []))
        (literal "vue" ∷ literal "svelte" ∷ literal "astro" ∷ [])
    ∷ end
    ∷ [])

unfoldable pub is_code_file : String → Bool
is_code_file path = test code_file path

-- `for (const a of list) findings.push(...f(a))`
unfoldable pub for_each {ℓ κ} : {A : Type ℓ} {B : Type κ} → (A → List B) → List A → List B
for_each f [] = []
for_each f (a ∷ rest) = f a ++ for_each f rest
