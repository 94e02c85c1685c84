-- ===== src/Tests/Orders.antt =====
-- A concrete order of texts, which stands for `localeCompare` in the examples.
use agent_permission_guard.Base.{text_compare, text_compare-separates}
use agent_permission_guard.Policy.Matcher.Reorder.{SeparatesIds}

pub text_compare-SeparatesIds : SeparatesIds text_compare
text_compare-SeparatesIds s t h k e = text_compare-separates s t e
