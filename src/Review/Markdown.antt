-- ===== src/Review/Markdown.antt =====
-- `sanitiseForMarkdown` of tooling/loop/src/review.ts: what may stand in a comment that the loop reads
-- back.
use space_elysiajs_orpc.Prelude.{String, false, ◌≡◌, refl}
use space_elysiajs_orpc.Prelude.Text.Replacing.{
  replace_all, occurs, occurs-replace_all, occurs-kept,
}
use space_elysiajs_orpc.Review.{sanitise_text}

unfoldable pub sanitise_for_markdown : String → String
sanitise_for_markdown value =
    replace_all "-->" "––>" (replace_all "<!--" "<!––" (replace_all "`" "'" (sanitise_text value)))

-- Whatever the text, what is left after it is made safe for Markdown has no backtick, and neither
-- opens nor closes an HTML comment.
pub sanitise_for_markdown_safe :
    (value : String)
    → (occurs "`" (sanitise_for_markdown value) ≡ false)
      × (occurs "<!--" (sanitise_for_markdown value) ≡ false)
      × (occurs "-->" (sanitise_for_markdown value) ≡ false)
unfolding sanitise_for_markdown
sanitise_for_markdown_safe value =
    let first = replace_all "`" "'" (sanitise_text value) in
    let second = replace_all "<!--" "<!––" first in
    let no_tick = occurs-replace_all _ "" _ "" refl (λ t. (refl, tt)) (sanitise_text value) in
    (
      occurs-kept "-->" _ "–>" "`" refl (λ t. (refl, (refl, (refl, tt)))) second
          (occurs-kept "<!--" _ "!––" "`" refl (λ t. (refl, (refl, (refl, (refl, tt))))) first
            no_tick),
      occurs-kept "-->" _ "–>" "<!--" refl (λ t. (refl, (refl, (refl, tt)))) second
          (occurs-replace_all _ "!--" _ "!––" refl (λ t. (refl, (refl, (refl, (refl, tt))))) first),
      occurs-replace_all _ "->" _ "–>" refl (λ t. (refl, (refl, (refl, tt)))) second,
    )
