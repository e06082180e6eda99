-- ===== src/Dashboard/Markup/Commands.antt =====
-- The frames of the commands: their structure is that of the marks of destructive ones.
use strom.Prelude.{Text, refl, Bool, true, false, List, [], ◌∷◌, ◌++◌, map}
use strom.Dashboard.Markup.{Part, markup, rows}
use strom.Dashboard.Markup.Controls.{
  Presentation, CommandInfo, control_presentation, command_row, presented_row, commands_parts,
}
use strom.Dashboard.Markup.Skeleton.{mode_parts, shape}
use strom.Dashboard.Markup.Frames.{IsFrame, frame-append, rows-IsFrame}

blank_row : Bool → List Part
blank_row destructive = shape (
    command_row record { label = []; description = [] }
      record { name = []; description = []; destructive = destructive })

pub blank_commands : List Bool → List Part
blank_commands [] = commands_parts []
blank_commands (destructive ∷ rest) =
    markup "<ul class=\"action-list\">"
    ∷ (rows blank_row (destructive ∷ rest) ++ markup "</ul>" ∷ [])

abbrev is_destructive : CommandInfo → Bool
is_destructive command = command.destructive

command_row-IsFrame :
    (p : Presentation) (n d : Text) (b : Bool)
    → IsFrame (command_row p (record { name = n; description = d; destructive = b })) (blank_row b)
unfolding mode_parts shape blank_row
command_row-IsFrame p n d true = record { mode = refl; same = refl }
command_row-IsFrame p n d false = record { mode = refl; same = refl }

presented_row-IsFrame :
    (command : CommandInfo) → IsFrame (presented_row command) (blank_row (is_destructive command))
presented_row-IsFrame command =
    command_row-IsFrame (control_presentation command.name) command.name command.description
      command.destructive

pub commands-IsFrame :
    (cs : List CommandInfo) → IsFrame (commands_parts cs) (blank_commands (map is_destructive cs))
unfolding mode_parts shape blank_commands
commands-IsFrame [] = record { mode = refl; same = refl }
commands-IsFrame (command ∷ rest) =
    frame-append {ps = markup "<ul class=\"action-list\">" ∷ []}
      {bs = markup "<ul class=\"action-list\">" ∷ []} (record { mode = refl; same = refl })
      (frame-append
        (rows-IsFrame presented_row blank_row is_destructive presented_row-IsFrame (command ∷ rest))
        (record { mode = refl; same = refl }))
