-- ===== src/Mock.antt =====
-- python/packages/jumpstarter-driver-mitmproxy/jumpstarter_driver_mitmproxy/bundled_addon.py: the
-- addon of the proxy that answers a device's requests from a table of endpoints. mitmproxy's flows,
-- JSON texts and files are parameters; patches, templates, the custom
-- addons' scripts, the bodies of responses and the capture of events are not modelled.
pub mod Json
pub mod Conditions
pub mod Endpoints
pub mod Sequences
pub mod Rules
