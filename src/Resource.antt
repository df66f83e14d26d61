-- ===== src/Resource.antt =====
-- cote3mon/resource.py: `Sampler` holds `ProcessSampler` and `sample_to_jsonl`.
pub mod Sampler
