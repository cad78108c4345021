-- ===== src/Examples/Targets.antt =====
-- The theorem on monitored targets, on a click inside a monitored button.
use spectro.Prelude.{ℕ, zero, suc, ◌≡◌, refl, none, some, [], ◌∷◌, Text, text}
use spectro.Browser.Targets.{
  MonitoredTarget, Element, TargetEvent, find_above, find_monitored_target,
}
use spectro.Browser.Targets.Laws.{IsSafe, find_monitored_target-IsSafe}

abbrev same : Text → Text
same t = t

abbrev icon : Element
icon = record {
  monitor_attribute = some (text "not an id");
  tag_name = some (text "svg");
  role_attribute = none;
  parent_element = some 1;
}

abbrev button : Element
button = record {
  monitor_attribute = some (text "Save-1");
  tag_name = some (text "button");
  role_attribute = some (text "?");
  parent_element = none;
}

abbrev dom : ℕ → Element
dom zero = icon
dom (suc n) = button

abbrev click : TargetEvent
click = record { composed_path = none ∷ []; target = some 0 }

abbrev found : MonitoredTarget
found = record { monitor_id = text "Save-1"; tag = some (text "button"); role = none }

click_found : find_monitored_target same same dom click ≡ some found
unfolding find_monitored_target find_above
click_found = refl

find_monitored_target-IsSafe_example : IsSafe found
find_monitored_target-IsSafe_example =
    find_monitored_target-IsSafe same same dom click found click_found
