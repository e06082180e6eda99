-- ===== src/Dashboard/Markup/Frames.antt =====
-- Templates whose values stand in texts and in quoted attributes only.
use strom.Prelude.{◌≡◌, refl, ap, sym, ◌∙◌, some, List, [], ◌∷◌, ◌++◌, map}
use strom.Dashboard.Markup.{Part, render_parts, rows}
use strom.Dashboard.Markup.Skeleton.{
  text, skeleton, mode_parts, shape, mode_parts-append, shape-append, skeleton-render_parts,
}

-- A template between two texts, and what it is without what its values are.
pub record IsFrame (parts blank : List Part) : Type 0 where
  pub mode : mode_parts text parts ≡ some text
  pub same : shape parts ≡ blank

pub frame-append :
    {ps qs bs cs : List Part} → IsFrame ps bs → IsFrame qs cs → IsFrame (ps ++ qs) (bs ++ cs)
frame-append {ps} {qs} {bs} f g = record {
  mode = mode_parts-append text text ps qs f.mode ∙ g.mode;
  same = shape-append ps qs ∙ ap (◌++ shape qs) f.same ∙ ap (bs ++◌) g.same;
}

-- A list of rows is a frame that depends on the kinds of the rows.
pub rows-IsFrame :
    {A K : Type 0}
    → (row : A → List Part) (blank : K → List Part) (kind : A → K)
    → ((a : A) → IsFrame (row a) (blank (kind a)))
    → (items : List A) → IsFrame (rows row items) (rows blank (map kind items))
unfolding rows
rows-IsFrame row blank kind f [] = record {
  mode = unfold mode_parts in refl;
  same = unfold shape in refl;
}
rows-IsFrame row blank kind f (a ∷ rest) = frame-append (f a) (rows-IsFrame row blank kind f rest)

pub skeleton-frame :
    {ps qs bs : List Part}
    → IsFrame ps bs
    → IsFrame qs bs
    → skeleton text (render_parts ps) ≡ skeleton text (render_parts qs)
skeleton-frame {ps} {qs} f g =
    skeleton-render_parts text text ps f.mode
    ∙ ap (λ parts. skeleton text (render_parts parts)) (f.same ∙ sym g.same)
    ∙ sym (skeleton-render_parts text text qs g.mode)
