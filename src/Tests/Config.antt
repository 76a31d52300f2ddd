-- ===== src/Tests/Config.antt =====
-- Configuration strings.
use vscpl1drv_can4vscp.Prelude.{◌<◌, ◌≤◌, ◌≡◌, refl, some, [], ◌∷◌, length, arith}
use vscpl1drv_can4vscp.Config.{next_config_token, read_config}
use vscpl1drv_can4vscp.Config.Text.{codes, strchr, strrchr, atoi, digits_from}
use vscpl1drv_can4vscp.Config.Tokens.{tokens}
use vscpl1drv_can4vscp.Config.Fields.{read_config_bounds}

-- The fields of "/dev/ttyS1;12;;debug", where the UDP target is empty.
fields :
    tokens 9 (some (codes "/dev/ttyS1;12;;debug"))
    ≡ codes "/dev/ttyS1" ∷ codes "12" ∷ [] ∷ codes "debug" ∷ []
unfolding tokens next_config_token strchr
fields = refl

defaults : (read_config 4 (codes "a;99;h:70000")).udp_port ≡ 9999
unfolding read_config next_config_token strchr strrchr atoi digits_from
defaults = refl

read_config_bounds_example :
    let c = read_config 0 (codes ";300;x:-1") in
    (c.baud < 13) × (length c.udp_host ≤ 255) × (0 < c.udp_port) × (c.udp_port < 65536)
read_config_bounds_example = read_config_bounds 0 (codes ";300;x:-1") (omega arith)
