-- ===== src/Config/Tests.antt =====
-- A file of the configuration, and what the getters find.
use iomessage.Prelude.{◌≡◌, refl, arith, true, none, some, List, [], ◌∷◌, All, codes}
use iomessage.Request.Types.{pos}
use iomessage.Response.{decimal}
use iomessage.Config.{
  property_list_def, property_val, get_property_by_name, search_property, init_properties_by_file,
  loaded, crashes, get_num_property, max_clients,
}
use iomessage.Config.Lines.{Line, comment, malformed, setting, print_lines, IsLine, value_after}
use iomessage.Config.Load.{IsConfigured, init_properties_by_file-IsConfigured}
use iomessage.Config.Numbers.{GivesNumber, get_num_property-GivesNumber}

abbrev lines : List Line
lines =
    comment (codes " limits")
    ∷ malformed (codes "MAX_CLIENTS 7")
    ∷ setting (codes "MAX_CLIENTS") (codes "30")
    ∷ setting (codes "OTHER") (codes "x=y")
    ∷ setting (codes "MAX_CLIENTS") (codes "40")
    ∷ []

lines-IsLine : All IsLine lines
lines-IsLine = ground arith

init_properties_by_file-IsConfigured_example :
    IsConfigured lines (init_properties_by_file (λ i. true) (some (print_lines lines)))
init_properties_by_file-IsConfigured_example =
    init_properties_by_file-IsConfigured (λ i. true) lines (λ i. refl) lines-IsLine

sets_clients :
    value_after max_clients lines (property_val property_list_def max_clients)
    ≡ some (decimal (pos 40))
unfolding property_val get_property_by_name search_property decimal
sets_clients = refl

get_num_property-GivesNumber_example :
    GivesNumber max_clients
      (pos 40)
      (init_properties_by_file (λ i. true) (some (print_lines lines)))
get_num_property-GivesNumber_example =
    get_num_property-GivesNumber (λ i. true) lines max_clients (pos 40) (λ i. refl) lines-IsLine
      (omega arith) sets_clients

missing_file : init_properties_by_file (λ i. true) none ≡ (1, loaded property_list_def)
unfolding init_properties_by_file
missing_file = refl

unknown_name : get_num_property property_list_def (codes "NO_SUCH") ≡ crashes
unfolding get_num_property property_val get_property_by_name search_property
unknown_name = refl
