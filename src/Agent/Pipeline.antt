-- ===== src/Agent/Pipeline.antt =====
-- agent/security/pipeline.py: the tiers of the pipeline, in order, with content inspection.
-- The file-hash cache is an interface; a pipeline with no database is one whose cache finds and
-- keeps nothing. `ms` is the latency that the verdict reports, in thousandths of a millisecond.
pub mod Defs
pub mod Content
pub mod Stages
pub mod Shadow
pub mod Blocks
pub mod Replay
pub use Defs.{
  Action, permit, block, Verdict, Cached, HashStore, Pipeline, Event, full_scan_limit,
  sample_scan_limit,
}
pub use Stages.{Outcome}
unfoldable pub use Defs.{
  is_static_file, should_inspect_content, build_scan_data, prepare_full_scan, prepare_sampled_scan,
  make_verdict, emit,
}
unfoldable pub use Content.{scan_targets, inspect_content, content_stage}
unfoldable pub use Stages.{tier1_verdict, tier2_verdict, ml_stage, check}
