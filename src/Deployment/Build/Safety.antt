-- ===== src/Deployment/Build/Safety.antt =====
-- What apps/worker/src/jobs/build-deployment.job.js leaves behind on every way out, and what it has
-- made sure of before it builds and queues, whatever others do to the documents meanwhile.
