-- ===== src/State/Comment.antt =====
-- The loop's state in the sticky comment: `parseLoopState` and `serialiseLoopState` of
-- tooling/loop/src/state.ts. What JSON.parse and the schema make of a text is the parameter `read`.
pub mod Reading
pub mod Printing
use space_elysiajs_orpc.Prelude.{ℕ, String, Option, none, some, List, [], ◌∷◌, concat}
use space_elysiajs_orpc.Regexp.{Re, group, star, reluctant, exec, group_of}
use space_elysiajs_orpc.Regexp.Classes.{literal, space, anything, all_of}
use space_elysiajs_orpc.State.{LoopState, initial_state}
use space_elysiajs_orpc.State.Json.{stringify}

-- `LOOP_STATE_MARKER`
abbrev pub loop_state_marker : String
loop_state_marker = "<!-- newsdeck-loop-state -->"

-- `/<!--\s*newsdeck-loop-state\s*-->[\s\S]*?```json\s*\n([\s\S]*?)\n```/`
abbrev pub state_block : Re
state_block = all_of (
    literal "<!--"
    ∷ star space
    ∷ literal "newsdeck-loop-state"
    ∷ star space
    ∷ literal "-->"
    ∷ reluctant anything
    ∷ literal "```json"
    ∷ star space
    ∷ literal "\n"
    ∷ group 1 (reluctant anything)
    ∷ literal "\n```"
    ∷ [])

unfoldable pub serialise_loop_state : LoopState → String
serialise_loop_state state =
    concat (loop_state_marker ∷ "\n\n```json\n" ∷ stringify state ∷ "\n```" ∷ [])

unfoldable pub or_initial : Option LoopState → Option ℕ → LoopState
or_initial none issue = initial_state issue
or_initial (some state) issue = state

unfoldable pub read_block : (String → Option LoopState) → Option String → Option ℕ → LoopState
unfolding or_initial
read_block read none issue = initial_state issue
read_block read (some raw) issue = or_initial (read raw) issue

-- `read` is none where the text is no JSON or the schema refuses what it holds.
unfoldable pub parse_loop_state : (String → Option LoopState) → Option String → Option ℕ → LoopState
unfolding read_block
parse_loop_state read none issue = initial_state issue
parse_loop_state read (some comment) issue =
    read_block read (group_of 1 (exec state_block comment)) issue
