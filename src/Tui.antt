-- ===== src/Tui.antt =====
-- lib/sippycup_tui/state.py: the events of a running campaign, the reducer behind every view, and
-- the bounded buffer between the producers and the view.
pub mod Event
pub mod Reducer
pub mod Buffer
mod Examples
