-- ===== src/Examples/Filters.antt =====
-- A forward chain at a concrete input.
use jumpstarter.DutNetwork.{Texts, FilterRule, FilterConfig}
use jumpstarter.Common.{none, some, [], ◌∷◌, true}

-- Every text is a network, and every number is printed alike.
abbrev texts : Texts
texts = record { is_network = λ t. true; printed = λ n. "443" }

abbrev web_rule : FilterRule
web_rule = record {
  action = "accept";
  destination = some "10.0.0.0/8";
  source = none;
  port = some 443;
  protocol = some "tcp";
}

abbrev filter_config : FilterConfig
filter_config = record {
  egress = some (record { policy = "drop"; rules = web_rule ∷ [] });
  ingress = none;
}
