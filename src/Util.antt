-- ===== src/Util.antt =====
-- pkg/util/go_utilities.go: numbers in text, conversions of interface{} values, lists and maps,
-- the order of pods, and volume names.
pub mod Numbers
pub mod Convert
pub mod EnvVars
pub mod Lists
pub mod VolumeNames
pub mod Paths
pub mod Maps
pub mod Pods
