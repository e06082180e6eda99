-- ===== src/Dashboard/Metadata/Tags.antt =====
-- Tags that are shown in the dialog and saved again.
use strom.Prelude.{
  ℕ, Text, ◌≡◌, refl, ap, ◌∙◌, Bool, true, false, List, [], ◌∷◌, ◌++◌, map, arith, any, ◌==◌, keep,
  All,
}
use strom.Dashboard.Settings.{trim, trim_start}
use strom.Dashboard.Metadata.{cons_first, split_on, is_filled, parse_tags, join_tags}

abbrev pub is_comma : ℕ → Bool
is_comma c = c == b','

-- A tag is not empty, has no comma, and no white space at its ends.
pub record IsTag (tag : Text) : Type 0 where
  pub filled : is_filled tag ≡ true
  pub whole : any is_comma tag ≡ false
  pub trimmed : trim tag ≡ tag

split_on_whole : (t : Text) → any is_comma t ≡ false → split_on b',' t ≡ t ∷ []
unfolding split_on
split_on_whole [] h = refl
split_on_whole (x ∷ t) h = ground (arith, split_on_whole t (ground arith))

split_on-append :
    (t rest : Text)
    → any is_comma t ≡ false
    → split_on b',' (t ++ b',' ∷ rest) ≡ t ∷ split_on b',' rest
unfolding split_on
split_on-append [] rest h = refl
split_on-append (x ∷ t) rest h = ground (arith, split_on-append t rest (ground arith))

abbrev clean : List Text → List Text
clean parts = keep is_filled (map trim parts)

clean_space : (parts : List Text) → clean (cons_first b' ' parts) ≡ clean parts
unfolding trim trim_start
clean_space [] = refl
clean_space (part ∷ parts) = refl

parse_tags_space : (t : Text) → parse_tags (b' ' ∷ t) ≡ parse_tags t
unfolding parse_tags split_on
parse_tags_space t = clean_space (split_on b',' t)

clean_tag : (tag : Text) (parts : List Text) → IsTag tag → clean (tag ∷ parts) ≡ tag ∷ clean parts
clean_tag tag parts h = rw (h.trimmed, h.filled) refl

-- A list of tags, each of them not empty, with no comma and with no white space at its ends, comes
-- back from the text that the dialog shows for it as the same list.
pub parse_tags-join_tags : (tags : List Text) → All IsTag tags → parse_tags (join_tags tags) ≡ tags
unfolding parse_tags join_tags
parse_tags-join_tags [] h = refl
parse_tags-join_tags (tag ∷ []) h =
    unfold parse_tags in ap clean (split_on_whole tag h.0.whole) ∙ clean_tag tag [] h.0
parse_tags-join_tags (tag ∷ next ∷ tags) h =
    let rest : Text = join_tags (next ∷ tags) in
    let parts : clean (split_on b',' (tag ++ b',' ∷ b' ' ∷ rest)) ≡ tag ∷ parse_tags (b' ' ∷ rest) =
      ap clean (split_on-append tag (b' ' ∷ rest) h.0.whole)
      ∙ clean_tag tag (split_on b',' (b' ' ∷ rest)) h.0 in
    parts ∙ ap (tag ∷◌) (parse_tags_space rest ∙ parse_tags-join_tags (next ∷ tags) h.1)
