-- ===== src/Dashboard/Markup/Writables.antt =====
-- The rows of the settings: their structure is that of the editors, not of what the UPS reports.
use strom.Prelude.{
  Text, text_eq, refl, Bool, true, false, Option, none, some, List, [], ◌∷◌, ◌++◌, map,
}
use strom.Dashboard.Markup.{Part, markup, rows}
use strom.Dashboard.Markup.Controls.{Presentation, control_presentation}
use strom.Dashboard.Markup.Editors.{
  Editor, select, number, text, WritableInfo, option_parts, option_row, input_parts, select_head,
  select_parts, variable_input, writable_head, writable_row, presented_variable, settings_end,
  writable_parts,
}
use strom.Dashboard.Markup.Skeleton.{mode_parts, shape}
use strom.Dashboard.Markup.Frames.{IsFrame, frame-append, rows-IsFrame}

-- The editor of a variable, which of its options is the current one, and the bounds that it has.
pub record Form : Type 0 where
  pub editor : Editor
  pub marks : List Bool
  pub has_least : Bool
  pub has_greatest : Bool

abbrev pub is_there : Option Text → Bool
is_there none = false
is_there (some bound) = true

abbrev pub form_of : WritableInfo → Form
form_of variable = record {
  editor = variable.editor;
  marks = map (λ option. text_eq option variable.current_value) variable.options;
  has_least = is_there variable.least;
  has_greatest = is_there variable.greatest;
}

abbrev blank_bound : Bool → Option Text
blank_bound false = none
blank_bound true = some []

abbrev variable_of :
    Text → Text → Editor → Text → List Text → Option Text → Option Text → WritableInfo
variable_of name description editor current options least greatest = record {
  name = name;
  description = description;
  editor = editor;
  current_value = current;
  options = options;
  least = least;
  greatest = greatest;
}

abbrev bare : Editor → Option Text → Option Text → WritableInfo
bare editor least greatest = variable_of [] [] editor [] [] least greatest

blank_option : Bool → List Part
blank_option selected = shape (option_parts selected [])

blank_input : Form → Editor → List Part
blank_input form select =
    shape (select_head (bare select none none))
    ++ (rows blank_option form.marks ++ markup "\n      </select>\n    " ∷ [])
blank_input form editor =
    shape (input_parts (bare editor (blank_bound form.has_least) (blank_bound form.has_greatest)))

option-IsFrame :
    (current option : Text)
    → IsFrame (option_row current option) (blank_option (text_eq option current))
unfolding blank_option mode_parts shape
option-IsFrame current option = frame (text_eq option current)
  where
    frame : (b : Bool) → IsFrame (option_parts b option) (blank_option b)
    frame true = record { mode = refl; same = refl }
    frame false = record { mode = refl; same = refl }

-- The two bounds, by what is there of them.
bounds-IsFrame :
    (n d c : Text) (editor : Editor) (os : List Text) (l g : Option Text)
    → IsFrame
        (input_parts (variable_of n d editor c os l g))
        (shape (input_parts (bare editor (blank_bound (is_there l)) (blank_bound (is_there g)))))
unfolding mode_parts shape
bounds-IsFrame n d c select os none none = record { mode = refl; same = refl }
bounds-IsFrame n d c select os none (some g) = record { mode = refl; same = refl }
bounds-IsFrame n d c select os (some l) none = record { mode = refl; same = refl }
bounds-IsFrame n d c select os (some l) (some g) = record { mode = refl; same = refl }
bounds-IsFrame n d c number os none none = record { mode = refl; same = refl }
bounds-IsFrame n d c number os none (some g) = record { mode = refl; same = refl }
bounds-IsFrame n d c number os (some l) none = record { mode = refl; same = refl }
bounds-IsFrame n d c number os (some l) (some g) = record { mode = refl; same = refl }
bounds-IsFrame n d c text os none none = record { mode = refl; same = refl }
bounds-IsFrame n d c text os none (some g) = record { mode = refl; same = refl }
bounds-IsFrame n d c text os (some l) none = record { mode = refl; same = refl }
bounds-IsFrame n d c text os (some l) (some g) = record { mode = refl; same = refl }

select-IsFrame : (v : WritableInfo) → IsFrame (select_parts v) (blank_input (form_of v) select)
unfolding mode_parts shape blank_input
select-IsFrame v =
    frame-append {ps = select_head v} (record { mode = refl; same = refl })
      (frame-append
        (rows-IsFrame (option_row v.current_value) blank_option
          (λ option. text_eq option v.current_value) (option-IsFrame v.current_value) v.options)
        (record { mode = refl; same = refl }))

input-IsFrame :
    (n d : Text) (editor : Editor) (c : Text) (os : List Text) (l g : Option Text)
    → IsFrame
        (variable_input editor (variable_of n d editor c os l g))
        (blank_input (form_of (variable_of n d editor c os l g)) editor)
unfolding blank_input
input-IsFrame n d select c os l g = select-IsFrame (variable_of n d select c os l g)
input-IsFrame n d number c os l g = bounds-IsFrame n d c number os l g
input-IsFrame n d text c os l g = bounds-IsFrame n d c text os l g

blank_writable : Form → List Part
blank_writable form =
    shape (writable_head record { label = []; description = [] } (bare form.editor none none))
    ++ (blank_input form form.editor ++ markup "\n        </div>\n      </li>\n    " ∷ [])

writable_row-IsFrame :
    (p : Presentation) (v : WritableInfo) → IsFrame (writable_row p v) (blank_writable (form_of v))
unfolding mode_parts shape blank_writable
writable_row-IsFrame p v =
    frame-append {ps = writable_head p v} (record { mode = refl; same = refl })
      (frame-append
        (input-IsFrame v.name v.description v.editor v.current_value v.options v.least v.greatest)
        (record { mode = refl; same = refl }))

presented_variable-IsFrame :
    (v : WritableInfo) → IsFrame (presented_variable v) (blank_writable (form_of v))
presented_variable-IsFrame v = writable_row-IsFrame (control_presentation v.name) v

pub blank_writables : List Form → List Part
blank_writables [] = writable_parts []
blank_writables (form ∷ rest) =
    markup "\n    <ul class=\"action-list\">" ∷ (rows blank_writable (form ∷ rest) ++ settings_end)

pub writables-IsFrame :
    (vs : List WritableInfo) → IsFrame (writable_parts vs) (blank_writables (map form_of vs))
unfolding mode_parts shape blank_writables
writables-IsFrame [] = record { mode = refl; same = refl }
writables-IsFrame (v ∷ rest) =
    frame-append {ps = markup "\n    <ul class=\"action-list\">" ∷ []}
      {bs = markup "\n    <ul class=\"action-list\">" ∷ []} (record { mode = refl; same = refl })
      (frame-append
        (rows-IsFrame presented_variable blank_writable form_of presented_variable-IsFrame
          (v ∷ rest))
        (record { mode = refl; same = refl }))
