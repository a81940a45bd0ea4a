-- ===== src/DutNetwork/Layout.antt =====
-- The rendered chain read back by its lines.
use jumpstarter.DutNetwork.{Texts, FilterConfig, forward_lines}
use jumpstarter.Common.{Option, List, ◌∷◌, String}

-- The first two lines, and those after them.
abbrev pub chain_lines : Texts → String → String → Option FilterConfig → List String → List String
unfolding forward_lines
chain_lines x interface upstream filter_config extras =
    "    chain forward {"
    ∷ "        type filter hook forward priority filter; policy accept;"
    ∷ forward_lines x interface upstream filter_config extras
