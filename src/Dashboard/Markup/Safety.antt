-- ===== src/Dashboard/Markup/Safety.antt =====
-- What a UPS reports cannot change the structure of the page: no text of it opens or closes a tag, or
-- adds an attribute.
use strom.Prelude.{
  ℕ, Text, text_eq, ◌≡◌, refl, sym, subst, Bool, true, false, some, List, [], ◌∷◌, ◌++◌, map,
  length,
}
use strom.Dashboard.Status.{Chip, good, warn, danger, status_class}
use strom.Dashboard.Markup.{Part, markup, rows}
use strom.Dashboard.Markup.Pages.{
  UpsInfo, card_parts, card_row, grid_parts, ups_grid_html, DetailInfo, detail_head, detail_metrics,
  details_head, commands_head, settings_head, detail_parts, detail_html,
}
use strom.Dashboard.Markup.Skeleton.{text, skeleton, mode_parts, shape}
use strom.Dashboard.Markup.Frames.{IsFrame, frame-append, rows-IsFrame, skeleton-frame}
use strom.Dashboard.Markup.Commands.{blank_commands, commands-IsFrame}
use strom.Dashboard.Markup.Writables.{Form, form_of, blank_writables, writables-IsFrame}
use strom.Dashboard.Markup.Sections.{
  blank_tags, tags-IsFrame, entry_count, blank_groups, groups-IsFrame,
}

-- What the structure of a detail depends on.
pub record Outline : Type 0 where
  pub chip : Chip
  pub tags : ℕ
  pub sections : List ℕ
  pub commands : List Bool
  pub writable : List Form

abbrev pub outline : DetailInfo → Outline
outline d = record {
  chip = status_class d.status;
  tags = length d.tags;
  sections = map entry_count d.sections;
  commands = map (λ command. command.destructive) d.commands;
  writable = map form_of d.writable;
}

abbrev empty_detail : DetailInfo
empty_detail = record {
  name = [];
  display_name = [];
  driver = [];
  status = [];
  tags = [];
  charge = [];
  load = [];
  runtime = [];
  input_voltage = [];
  output_voltage = [];
  battery_voltage = [];
  sections = [];
  commands = [];
  writable = [];
}

head-IsFrame :
    (chip : Chip) (d : DetailInfo)
    → IsFrame (detail_head chip d) (shape (detail_head chip empty_detail))
unfolding mode_parts shape
head-IsFrame good d = record { mode = refl; same = refl }
head-IsFrame warn d = record { mode = refl; same = refl }
head-IsFrame danger d = record { mode = refl; same = refl }

blank_metrics : List Part
blank_metrics = shape (detail_metrics empty_detail)

metrics-IsFrame : (d : DetailInfo) → IsFrame (detail_metrics d) blank_metrics
unfolding mode_parts shape blank_metrics
metrics-IsFrame d = record { mode = refl; same = refl }

blank_detail : Outline → List Part
blank_detail o =
    shape (detail_head o.chip empty_detail)
    ++ (blank_tags o.tags
        ++ (blank_metrics
            ++ (details_head
                ++ (blank_groups o.sections
                    ++ (commands_head
                        ++ (blank_commands o.commands
                            ++ (settings_head
                                ++ (blank_writables o.writable
                                    ++ markup "\n    </section>\n  " ∷ []))))))))

closed : {ps : List Part} → mode_parts text ps ≡ some text → shape ps ≡ ps → IsFrame ps ps
closed m s = record { mode = m; same = s }

detail-IsFrame : (d : DetailInfo) → IsFrame (detail_parts d) (blank_detail (outline d))
unfolding mode_parts shape blank_detail
detail-IsFrame d = frame-append (head-IsFrame (status_class d.status) d) (
    frame-append (tags-IsFrame d.tags) (
      frame-append (metrics-IsFrame d) (
        frame-append {ps = details_head} (closed refl refl) (
          frame-append (groups-IsFrame d.sections) (
            frame-append {ps = commands_head} (closed refl refl) (
              frame-append (commands-IsFrame d.commands) (
                frame-append {ps = settings_head} (closed refl refl)
                  (frame-append (writables-IsFrame d.writable) (closed refl refl)))))))))

-- What the structure of a card depends on.
pub record Mark : Type 0 where
  pub chip : Chip
  pub is_selected : Bool

abbrev pub mark_of : Text → UpsInfo → Mark
mark_of selected ups = record {
  chip = status_class ups.status;
  is_selected = text_eq ups.name selected;
}

abbrev empty_ups : UpsInfo
empty_ups = record {
  name = [];
  display_name = [];
  driver = [];
  status = [];
  charge = [];
  load = [];
  runtime = [];
  output = [];
}

blank_card : Mark → List Part
blank_card mark = shape (card_parts mark.chip mark.is_selected empty_ups)

card-IsFrame :
    (chip : Chip) (b : Bool) (ups : UpsInfo)
    → IsFrame (card_parts chip b ups) (blank_card (record { chip = chip; is_selected = b }))
unfolding mode_parts shape blank_card
card-IsFrame good true ups = record { mode = refl; same = refl }
card-IsFrame good false ups = record { mode = refl; same = refl }
card-IsFrame warn true ups = record { mode = refl; same = refl }
card-IsFrame warn false ups = record { mode = refl; same = refl }
card-IsFrame danger true ups = record { mode = refl; same = refl }
card-IsFrame danger false ups = record { mode = refl; same = refl }

blank_grid : List Mark → List Part
blank_grid [] = grid_parts [] []
blank_grid (mark ∷ rest) = rows blank_card (mark ∷ rest)

grid-IsFrame :
    (selected : Text) (upses : List UpsInfo)
    → IsFrame (grid_parts selected upses) (blank_grid (map (mark_of selected) upses))
unfolding mode_parts shape blank_grid
grid-IsFrame selected [] = record { mode = refl; same = refl }
grid-IsFrame selected (ups ∷ rest) =
    rows-IsFrame (card_row selected) blank_card (mark_of selected)
      (λ u. card-IsFrame (status_class u.status) (text_eq u.name selected) u) (ups ∷ rest)

-- Whatever names, descriptions and values the UPSes report: two lists with the same chips and the same
-- card selected are rendered with the same tags and names of attributes, and so are two details with
-- the same chip, as many tags, the same numbers of variables in their groups, the same marks of
-- destructive commands and the same editors.
pub page-skeleton :
    (selected selected' : Text) (us vs : List UpsInfo) (d e : DetailInfo)
    → map (mark_of selected) us ≡ map (mark_of selected') vs
    → outline d ≡ outline e
    → (skeleton text (ups_grid_html selected us) ≡ skeleton text (ups_grid_html selected' vs))
      × (skeleton text (detail_html d) ≡ skeleton text (detail_html e))
unfolding ups_grid_html detail_html
page-skeleton selected selected' us vs d e g h = (
  skeleton-frame (grid-IsFrame selected us) (
      subst (λ ms. IsFrame (grid_parts selected' vs) (blank_grid ms)) (sym g)
        (grid-IsFrame selected' vs)),
  skeleton-frame (detail-IsFrame d)
      (subst (λ o. IsFrame (detail_parts e) (blank_detail o)) (sym h) (detail-IsFrame e)),
)
